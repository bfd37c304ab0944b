-- ===== src/Opening/Fallocate.antt =====
-- `fallocate`: the tests before the file system is asked.
pub mod Called
use so2_202003745_vd.Base.{
  ℕ, Bool, true, false, ◌&&◌, ◌||◌, not, Option, none, some, ℤ, pos, neg, is_zero, is_neg, ltz,
  add64, ◌==◌, if◌then◌else◌, einval, eisdir, eperm, ebadf, efbig, eopnotsupp, etxtbsy, espipe,
  enodev,
}
use so2_202003745_vd.Opening.Resize.{
  ResizedInode, ResizedFile, is_regular, is_directory, is_fifo, is_block_device,
}

-- The mode of `fallocate`, by its bits; `unsupported` is the bits outside FALLOC_FL_SUPPORTED_MASK.
pub record FallocMode : Type 0 where
  pub keep_size : Bool
  pub punch_hole : Bool
  pub collapse_range : Bool
  pub zero_range : Bool
  pub insert_range : Bool
  pub unshare_range : Bool
  pub unsupported : ℕ

abbrev pub is_collapse_mixed : FallocMode → Bool
is_collapse_mixed m =
    m.collapse_range
    && (m.keep_size || m.punch_hole || m.zero_range || m.insert_range || m.unshare_range)

abbrev pub is_insert_mixed : FallocMode → Bool
is_insert_mixed m =
    m.insert_range
    && (m.keep_size || m.punch_hole || m.collapse_range || m.zero_range || m.unshare_range)

abbrev pub is_unshare_mixed : FallocMode → Bool
is_unshare_mixed m =
    m.unshare_range && (m.punch_hole || m.collapse_range || m.zero_range || m.insert_range)

-- `mode & ~FALLOC_FL_KEEP_SIZE`, of a supported mode
abbrev pub is_more_than_keep : FallocMode → Bool
is_more_than_keep m =
    m.punch_hole || m.collapse_range || m.zero_range || m.insert_range || m.unshare_range

-- The tests of the mode, an error or 0.
unfoldable pub falloc_mode_check : FallocMode → ℤ
falloc_mode_check m =
    if not (m.unsupported == 0)
    then neg eopnotsupp
    else if m.punch_hole && m.zero_range
    then neg eopnotsupp
    else if m.punch_hole && not m.keep_size
    then neg eopnotsupp
    else if is_collapse_mixed m || is_insert_mixed m || is_unshare_mixed m
    then neg einval
    else pos 0

-- `security_file_permission`, `fsnotify_file_area_perm` and the file system's `fallocate`
pub record FallocHost : Type 0 where
  pub permission : ℤ
  pub area_perm : ℤ
  pub fallocate : FallocMode → ℤ → ℤ → ℤ

-- The tests after those of the mode, up to the call of the file system; `offset + len` wraps.
unfoldable pub falloc_file_check : FallocHost → ResizedInode → ResizedFile → FallocMode → ℤ → ℤ → ℤ
falloc_file_check host inode file m offset len =
    if not file.is_writable
    then neg ebadf
    else if (is_more_than_keep m && inode.is_append) || inode.is_immutable
    then neg eperm
    else if inode.is_swapfile
    then neg etxtbsy
    else if not (is_zero host.permission)
    then host.permission
    else if not (is_zero host.area_perm)
    then host.area_perm
    else if is_fifo inode.i_type
    then neg espipe
    else if is_directory inode.i_type
    then neg eisdir
    else if not (is_regular inode.i_type) && not (is_block_device inode.i_type)
    then neg enodev
    else if ltz inode.s_maxbytes (add64 offset len) || is_neg (add64 offset len)
    then neg efbig
    else if not file.has_fallocate
    then neg eopnotsupp
    else pos 0

-- `vfs_fallocate`: the result, and whether the file system was called.
unfoldable pub vfs_fallocate :
    FallocHost → ResizedInode → ResizedFile → FallocMode → ℤ → ℤ → ℤ × Bool
vfs_fallocate host inode file m offset len =
    if is_neg offset || (is_neg len || is_zero len)
    then (neg einval, false)
    else if not (is_zero (falloc_mode_check m))
    then (falloc_mode_check m, false)
    else if not (is_zero (falloc_file_check host inode file m offset len))
    then (falloc_file_check host inode file m offset len, false)
    else (host.fallocate m offset len, true)

unfoldable pub ksys_fallocate :
    FallocHost → ResizedInode → Option ResizedFile → FallocMode → ℤ → ℤ → ℤ × Bool
ksys_fallocate host inode none m offset len = (neg ebadf, false)
ksys_fallocate host inode (some file) m offset len = vfs_fallocate host inode file m offset len
