-- ===== src/Files/CopyChecks/Copied.antt =====
-- A copy that is let pass: it stays within the source and never overlaps itself.
use so2_202003745_vd.Base.{ℕ, ◌+◌, ◌^◌, ◌≤◌, ◌<◌, ◌≡◌, ◌≢◌, ◌⊎◌, ℤ, pos, arith, refl}
use so2_202003745_vd.Files.WriteLimits.{Target, max_size, fsize_limit, generic_write_check_limits}
use so2_202003745_vd.Files.WriteLimits.Bounds.{request, generic_write_check_limits-Fits}
use so2_202003745_vd.Files.CopyChecks.{
  End, limits_request, shorten_to_eof, is_overlap, generic_copy_file_checks,
}

-- The bytes from `a` and the bytes from `b` of the same file do not meet.
abbrev pub Apart : ℕ → ℕ → ℕ → Type 0
Apart a b n = (a + n ≤ b) ⊎ (b + n ≤ a)

pub shorten_to_eof_left :
    (source : End) (a size count : ℕ)
    → a < 2 ^ 63
    → size < 2 ^ 63
    → source.start ≡ pos a
    → source.inode.size ≡ pos size
    → (shorten_to_eof source count ≤ count)
      × ((0 < shorten_to_eof source count) → a + shorten_to_eof source count ≤ size)
unfolding shorten_to_eof
shorten_to_eof_left source a size count ha hs start end = (ground arith, ground arith)

request_signed : (count sent : ℕ) → count < 2 ^ 63 → limits_request count sent ≡ request count sent
request_signed count sent h = ground arith

-- A copy within files whose positions and sizes are `loff_t` values that are not negative: where
-- `generic_copy_file_checks` returns 0, the count that it leaves is at most the one asked for, ends
-- within the source if it is not 0, ends within the largest size of the destination, and the
-- two ranges do not meet if both ends are the same file. Where it returns an error, the count is
-- the one asked for.
pub generic_copy_file_checks_range :
    (t : Target) (source dest : End) (a b size max req flags sent n signals : ℕ) (ret : ℤ)
    → a < 2 ^ 63
    → b < 2 ^ 63
    → size < 2 ^ 63
    → max < 2 ^ 63
    → fsize_limit t < 2 ^ 64
    → source.start ≡ pos a
    → dest.start ≡ pos b
    → source.inode.size ≡ pos size
    → max_size t dest.file ≡ pos max
    → generic_copy_file_checks t source dest req flags sent ≡ (ret, (n, signals))
    → ((ret ≡ pos 0)
        × (n ≤ req)
        × ((n ≡ 0) ⊎ (a + n ≤ size))
        × (b + n ≤ max)
        × ((source.inode.i_ino ≢ dest.inode.i_ino) ⊎ (n ≡ 0) ⊎ Apart a b n))
      ⊎ ((ret ≢ pos 0) × (n ≡ req))
unfolding generic_copy_file_checks is_overlap
generic_copy_file_checks_range t source dest a b size max req flags sent n signals ret ha hb hs hm
      hl sa sb ss sm run =
    let (less, left) = shorten_to_eof_left source a size req ha hs sa ss in
    let small : shorten_to_eof source req < 2 ^ 63 = ground arith in
    let asked = request_signed (shorten_to_eof source req) sent small in
    let checked =
      generic_write_check_limits t dest.file (pos b) (request (shorten_to_eof source req) sent) in
    let fits =
      generic_write_check_limits-Fits t dest.file b (shorten_to_eof source req) max sent hb small hm
        hl sm checked.0 checked.1 refl in
    ground arith
