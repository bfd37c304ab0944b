-- ===== src/Files/Seek.antt =====
-- Seeking: `vfs_setpos`, the `llseek` methods that file systems use, and the system calls.
pub mod Bounds
pub mod Agreement
use so2_202003745_vd.Base.{
  ℕ, ◌*◌, ◌+◌, ◌-◌, ◌^◌, ◌%◌, Option, none, some, Bool, true, false, ◌&&◌, ◌||◌, not, ℤ, pos,
  negsuc, neg, is_neg, is_zero, ltz, lez, ltb, leb, to_word, signed64, add64, offset_max, ◌==◌,
  ◌==ℤ◌, if◌then◌else◌, Result, Call, ok, err, ◌>>=◌, ◌>>◌, pure, gets, modify, return_if, non_null,
  enter, einval, enxio, espipe, ebadf, eoverflow, efault,
}
use so2_202003745_vd.Files.{File, unsigned_offsets}

-- `SEEK_SET` and its like; `SEEK_MAX` is `SEEK_HOLE`
abbrev pub seek_set : ℕ
seek_set = 0

abbrev pub seek_cur : ℕ
seek_cur = 1

abbrev pub seek_end : ℕ
seek_end = 2

abbrev pub seek_data : ℕ
seek_data = 3

abbrev pub seek_hole : ℕ
seek_hole = 4

-- What a seek reads of the inode and its file system.
pub record Inode : Type 0 where
  pub i_size : ℤ
  pub s_maxbytes : ℤ

-- `if (offset != file->f_pos) { ... }`
abbrev pub move_to : ℤ → File → File
move_to offset file =
    if offset ==ℤ file.f_pos then file else record file { f_pos = offset; f_version = 0 }

unfoldable pub vfs_setpos : ℤ → ℤ → Call File ℤ
vfs_setpos offset maxsize = do
  file ← gets (λ f. f)
  return_if (is_neg offset && not (unsigned_offsets file)) (neg einval)
  return_if (ltz maxsize offset) (neg einval)
  modify (move_to offset)
  pure offset

-- `(unsigned long long)offset >= eof`
abbrev pub at_or_past : ℤ → ℤ → Bool
at_or_past offset eof = leb (to_word eof) (to_word offset)

-- The parts of the `switch` of `generic_file_llseek_size`.
unfoldable pub seek_from_here : ℤ → ℤ → Call File ℤ
seek_from_here offset maxsize = do
  file ← gets (λ f. f)
  if is_zero offset then pure file.f_pos else vfs_setpos (add64 file.f_pos offset) maxsize

unfoldable pub seek_within : ℤ → ℤ → ℤ → ℤ → Call File ℤ
seek_within offset target maxsize eof = do
  return_if (at_or_past offset eof) (neg enxio)
  vfs_setpos target maxsize

unfoldable pub generic_file_llseek_size : ℤ → ℕ → ℤ → ℤ → Call File ℤ
generic_file_llseek_size offset whence maxsize eof =
    if whence == seek_end
    then vfs_setpos (add64 offset eof) maxsize
    else if whence == seek_cur
    then seek_from_here offset maxsize
    else if whence == seek_data
    then seek_within offset offset maxsize eof
    else if whence == seek_hole
    then seek_within offset eof maxsize eof
    else vfs_setpos offset maxsize

unfoldable pub generic_file_llseek : Inode → ℤ → ℕ → Call File ℤ
generic_file_llseek inode offset whence =
    generic_file_llseek_size offset whence inode.s_maxbytes inode.i_size

-- `return -EINVAL;`
abbrev pub invalid : Call File ℤ
invalid file = (err (neg einval), file)

unfoldable pub fixed_size_llseek : ℤ → ℤ → ℕ → Call File ℤ
fixed_size_llseek size offset whence =
    if (whence == seek_set) || ((whence == seek_cur) || (whence == seek_end))
    then generic_file_llseek_size offset whence size size
    else invalid

unfoldable pub no_seek_end_llseek : ℤ → ℕ → Call File ℤ
no_seek_end_llseek offset whence =
    if (whence == seek_set) || (whence == seek_cur)
    then generic_file_llseek_size offset whence (pos offset_max) (pos 0)
    else invalid

unfoldable pub no_seek_end_llseek_size : ℤ → ℤ → ℕ → Call File ℤ
no_seek_end_llseek_size size offset whence =
    if (whence == seek_set) || (whence == seek_cur)
    then generic_file_llseek_size offset whence size (pos 0)
    else invalid

unfoldable pub noop_llseek : ℤ → ℕ → Call File ℤ
noop_llseek offset whence = gets (λ file. file.f_pos)

-- The end of `default_llseek`, which knows no largest size.
unfoldable pub default_setpos : ℤ → Call File ℤ
default_setpos offset = do
  file ← gets (λ f. f)
  return_if (not (not (is_neg offset) || unsigned_offsets file)) (neg einval)
  modify (move_to offset)
  pure offset

unfoldable pub default_from_here : ℤ → Call File ℤ
default_from_here offset = do
  file ← gets (λ f. f)
  if is_zero offset then pure file.f_pos else default_setpos (add64 offset file.f_pos)

unfoldable pub default_within : ℤ → ℤ → ℤ → Call File ℤ
default_within offset target i_size = do
  return_if (lez i_size offset) (neg enxio)
  default_setpos target

unfoldable pub default_llseek : ℤ → ℤ → ℕ → Call File ℤ
default_llseek i_size offset whence =
    if whence == seek_end
    then default_setpos (add64 offset i_size)
    else if whence == seek_cur
    then default_from_here offset
    else if whence == seek_data
    then default_within offset offset i_size
    else if whence == seek_hole
    then default_within offset i_size i_size
    else default_setpos offset

-- A file's `f_op->llseek`.
abbrev pub Llseek : Type 0
Llseek = ℤ → ℕ → Call File ℤ

unfoldable pub vfs_llseek : Llseek → ℤ → ℕ → Call File ℤ
vfs_llseek llseek offset whence = do
  file ← gets (λ f. f)
  return_if (not file.f_mode.fmode_lseek) (neg espipe)
  llseek offset whence

-- `ksys_lseek` on a machine of 64-bit longs; the state is the file behind the descriptor, if any
unfoldable pub ksys_lseek : Llseek → ℤ → ℕ → Call File ℤ
ksys_lseek llseek offset whence = do
  return_if (ltb seek_hole whence) (neg einval)
  vfs_llseek llseek offset whence

-- `((loff_t) offset_high << 32) | offset_low`, of two halves of 32 bits
abbrev pub join_halves : ℕ → ℕ → ℤ
join_halves high low = signed64 ((high * 2 ^ 32 + low) % 2 ^ 64)

-- conversion to int
abbrev pub to_int32 : ℤ → ℤ
to_int32 z =
    let low = to_word z % 2 ^ 32 in if ltb low (2 ^ 31) then pos low else negsuc (2 ^ 32 - low - 1)

-- the value of a call, returned or not
abbrev pub outcome : Call File ℤ → Call File ℤ
outcome m file = let (ret, file') = enter m file in (ok ret, file')

-- `llseek`: the value returned and what was written to `result`, if that can be written
unfoldable pub sys_llseek : Llseek → ℕ → ℕ → ℕ → Bool → File → (ℤ × Option ℤ) × File
sys_llseek llseek offset_high offset_low whence writable file =
    if ltb seek_hole whence
    then ((neg einval, none), file)
    else let (offset, file') =
        enter (vfs_llseek llseek (join_halves offset_high offset_low) whence) file in
      (
        if is_neg offset
            then (to_int32 offset, none)
            else if writable
            then (pos 0, some offset)
            else (neg efault, none),
        file',
      )
