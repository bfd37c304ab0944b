-- ===== src/Files/Area.antt =====
-- `rw_verify_area`: which ranges of a file may be read or written.
pub mod Range
use so2_202003745_vd.Base.{
  ℕ, ◌+◌, ◌^◌, Option, none, some, Bool, true, false, ◌&&◌, not, ℤ, pos, negsuc, neg, is_neg,
  is_zero, leb, ltb, add64, to_word, signed64, if◌then◌else◌, einval, eoverflow,
}
use so2_202003745_vd.Files.{File, unsigned_offsets}

pub data Direction : Type 0 where
  reading writing : Direction

-- `security_file_permission` and `fsnotify_file_area_perm`, on the file
pub record Permission : Type 0 where
  pub security_file_permission : Direction → ℤ
  pub fsnotify_file_area_perm : Direction → Option ℤ → ℕ → ℤ

-- `-pos` of a negative `pos` that is not the smallest, as an unsigned number
abbrev pub magnitude : ℤ → ℕ
magnitude (pos n) = 0
magnitude (negsuc n) = n + 1

-- The test of the position, as an error or 0.
unfoldable pub position_check : File → ℤ → ℕ → ℤ
position_check file p count =
    if is_neg p
    then if not (unsigned_offsets file)
      then neg einval
      else if leb (magnitude p) count
      then neg eoverflow
      else pos 0
    else if is_neg (add64 p (signed64 count)) && not (unsigned_offsets file)
    then neg einval
    else pos 0

unfoldable pub range_check : File → Option ℤ → ℕ → ℤ
range_check file none count = pos 0
range_check file (some p) count = position_check file p count

-- `count` is a size_t
unfoldable pub rw_verify_area : Permission → Direction → File → Option ℤ → ℕ → ℤ
unfolding position_check range_check
rw_verify_area h direction file ppos count =
    if is_neg (signed64 count)
    then neg einval
    else if not (is_zero (range_check file ppos count))
    then range_check file ppos count
    else if not (is_zero (h.security_file_permission direction))
    then h.security_file_permission direction
    else h.fsnotify_file_area_perm direction ppos count
