-- ===== src/Opening/Fallocate/Called.antt =====
-- Which ranges reach the file system.
use so2_202003745_vd.Base.{ℕ, ◌+◌, ◌^◌, ◌<◌, ◌≤◌, true, false, ◌≡◌, ◌⊎◌, pos, arith}
use so2_202003745_vd.Opening.Resize.{ResizedFile, ResizedInode, is_regular, is_block_device}
use so2_202003745_vd.Opening.Fallocate.{
  FallocMode, FallocHost, falloc_mode_check, falloc_file_check, vfs_fallocate,
}

-- The file system's `fallocate` is called only for a range that is not empty, starts at 0 or above
-- and ends, without overflow, within the largest size of the file system, in a writable file that is
-- neither immutable nor a swap file, of a mode whose parts may go together.
pub vfs_fallocate_called :
    (host : FallocHost) (inode : ResizedInode) (file : ResizedFile) (m : FallocMode) (a n max : ℕ)
    → a < 2 ^ 63
    → n < 2 ^ 63
    → inode.s_maxbytes ≡ pos max
    → (vfs_fallocate host inode file m (pos a) (pos n)).1 ≡ true
    → (0 < n)
      × (a + n ≤ max)
      × (a + n < 2 ^ 63)
      × (file.is_writable ≡ true)
      × (inode.is_immutable ≡ false)
      × (inode.is_swapfile ≡ false)
      × ((is_regular inode.i_type ≡ true) ⊎ (is_block_device inode.i_type ≡ true))
      × (m.unsupported ≡ 0)
      × (m.punch_hole ≡ true → (m.keep_size ≡ true) × (m.zero_range ≡ false))
unfolding vfs_fallocate falloc_mode_check falloc_file_check
vfs_fallocate_called host inode file m a n max ha hn size called = (
  ground arith,
  ground arith,
  ground arith,
  ground arith,
  ground arith,
  ground arith,
  ground arith,
  ground arith,
  λ h. ground arith,
)
