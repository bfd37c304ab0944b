-- ===== src/Opening/Resize/Truncated.antt =====
-- What a `truncate` leaves, whether it fails or not.
use so2_202003745_vd.Base.{true, false, ◌≡◌, ◌≢◌, ℤ, pos, is_neg, arith}
use so2_202003745_vd.Opening.Resize.{
  ResizeHost, Resizing, do_truncate, truncate_held, truncate_mounted, vfs_truncate, do_sys_truncate,
  is_regular,
}

-- A `truncate` that does not return 0 leaves the file as it was; one that returns 0 was of a regular file that
-- is not append-only and sets its size to the length, which is not negative. Either way nobody
-- holds the mount or the inode for writing who did not before.
pub do_sys_truncate_outcome :
    (host : ResizeHost) (found length ret : ℤ) (s s' : Resizing)
    → do_sys_truncate host found length s ≡ (ret, s')
    → ((ret ≢ pos 0 → s' ≡ s)
        × (ret ≡ pos 0
            → (is_neg length ≡ false)
              × (is_regular s.inode.i_type ≡ true)
              × (s.inode.is_append ≡ false)
              × (s' ≡ record s { inode = record s.inode { i_size = length } })))
unfolding do_sys_truncate vfs_truncate truncate_mounted truncate_held do_truncate
do_sys_truncate_outcome host found length ret s s' run =
    ((λ h. ground arith), λ h. (ground arith, ground arith, ground arith, ground arith))
