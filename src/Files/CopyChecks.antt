-- ===== src/Files/CopyChecks.antt =====
-- The checks before one file is copied into another: `generic_file_rw_checks` and
-- `generic_copy_file_checks`.
pub mod Copied
use so2_202003745_vd.Base.{
  ℕ, ◌+◌, ◌-◌, ◌^◌, ◌%◌, Bool, true, false, ◌&&◌, ◌||◌, not, Option, none, some, ℤ, pos, negsuc,
  neg, is_zero, ltz, lez, leb, signed64, to_word, ltb, ◌==◌, if◌then◌else◌, Result, Call, ok, err,
  enter, has, ebadf, eisdir, einval, exdev, eperm, etxtbsy, eoverflow,
}
use so2_202003745_vd.Files.{File}
use so2_202003745_vd.Files.WriteLimits.{Target, Request, generic_write_check_limits}

-- COPY_FILE_SPLICE
abbrev pub copy_file_splice : ℕ
copy_file_splice = 2 ^ 31

-- What the checks read of an inode; `i_ino` and `i_sb` stand for the addresses of the inode and of
-- its super block.
pub record CopiedInode : Type 0 where
  pub i_ino : ℕ
  pub i_sb : ℕ
  pub is_dir : Bool
  pub is_reg : Bool
  pub is_immutable : Bool
  pub is_swap : Bool
  pub size : ℤ

-- One end of a copy: the file, its inode, where the copy starts, and `f_op->copy_file_range`,
-- which is none for a file system without one.
pub record End : Type 0 where
  pub file : File
  pub inode : CopiedInode
  pub start : ℤ
  pub copy_file_range : Option ℕ

unfoldable pub generic_file_rw_checks : End → End → ℤ
generic_file_rw_checks source dest =
    if source.inode.is_dir || dest.inode.is_dir
    then neg eisdir
    else if not source.inode.is_reg || not dest.inode.is_reg
    then neg einval
    else if not source.file.f_mode.fmode_read
        || not dest.file.f_mode.fmode_write
        || dest.file.o_append
    then neg ebadf
    else pos 0

-- Equality of two addresses that may be null.
abbrev pub is_same : Option ℕ → Option ℕ → Bool
is_same none none = true
is_same none (some b) = false
is_same (some a) none = false
is_same (some a) (some b) = a == b

abbrev pub is_null : Option ℕ → Bool
is_null none = true
is_null (some a) = false

-- Whether the two file systems can copy between them.
unfoldable pub is_cross_device : End → End → ℕ → Bool
is_cross_device source dest flags =
    if has flags copy_file_splice
    then false
    else if not (is_null dest.copy_file_range)
    then not (is_same source.copy_file_range dest.copy_file_range)
    else not (source.inode.i_sb == dest.inode.i_sb)

-- `pos + count < pos`, of unsigned numbers
abbrev pub wraps : ℤ → ℕ → Bool
wraps p count = ltb ((to_word p + count) % 2 ^ 64) (to_word p)

-- `min(count, left)`
abbrev pub smaller : ℕ → ℕ → ℕ
smaller count left = if leb count left then count else left

-- `count` cut to what is left of the source
unfoldable pub shorten_to_eof : End → ℕ → ℕ
shorten_to_eof source count =
    if lez source.inode.size source.start
    then 0
    else smaller count ((to_word source.inode.size + (2 ^ 64 - to_word source.start)) % 2 ^ 64)

-- The last test, of unsigned sums.
unfoldable pub is_overlap : End → End → ℕ → Bool
is_overlap source dest count =
    (source.inode.i_ino == dest.inode.i_ino)
    && ltb (to_word source.start) ((to_word dest.start + count) % 2 ^ 64)
    && ltb (to_word dest.start) ((to_word source.start + count) % 2 ^ 64)

-- The tests before the count is changed: an error or 0.
unfoldable pub copy_refusal : End → End → ℕ → ℕ → ℤ
copy_refusal source dest count flags =
    if not (is_zero (generic_file_rw_checks source dest))
    then generic_file_rw_checks source dest
    else if is_cross_device source dest flags
    then neg exdev
    else if dest.inode.is_immutable
    then neg eperm
    else if source.inode.is_swap || dest.inode.is_swap
    then neg etxtbsy
    else if wraps source.start count || wraps dest.start count
    then neg eoverflow
    else pos 0

-- `count` as `generic_write_check_limits` takes it, through a pointer to a signed number
abbrev pub limits_request : ℕ → ℕ → Request
limits_request count sent = record { count = signed64 count; sigxfsz = sent }

-- `generic_copy_file_checks`: the result, `*req_count`, and how often SIGXFSZ was sent
unfoldable pub generic_copy_file_checks : Target → End → End → ℕ → ℕ → ℕ → ℤ × (ℕ × ℕ)
generic_copy_file_checks t source dest req_count flags sent =
    let refused = copy_refusal source dest req_count flags in
    let (ret, r) =
      generic_write_check_limits t dest.file dest.start
        (limits_request (shorten_to_eof source req_count) sent) in
    if not (is_zero refused)
    then (refused, (req_count, sent))
    else if not (is_zero ret)
    then (ret, (req_count, r.sigxfsz))
    else if is_overlap source dest (to_word r.count)
    then (neg einval, (req_count, r.sigxfsz))
    else (pos 0, (to_word r.count, r.sigxfsz))
