-- ===== src/Opening/Resize.antt =====
-- `truncate` and `ftruncate`: the tests before the size of a file changes.
pub mod Truncated
use so2_202003745_vd.Base.{
  ℕ, ◌+◌, ◌-◌, ◌^◌, Bool, true, false, ◌&&◌, ◌||◌, not, Option, none, some, ℤ, pos, negsuc, neg,
  is_zero, is_neg, ltz, lez, add64, ltb, leb, ◌==◌, if◌then◌else◌, einval, eisdir, eperm, ebadf,
  efbig, eopnotsupp, etxtbsy, espipe, enodev,
}
use so2_202003745_vd.Files.WriteLimits.{max_non_lfs}

-- The types of inode that the tests tell apart.
pub data InodeType : Type 0 where
  regular directory fifo block_device other : InodeType

abbrev pub is_regular : InodeType → Bool
is_regular regular = true
is_regular directory = false
is_regular fifo = false
is_regular block_device = false
is_regular other = false

abbrev pub is_directory : InodeType → Bool
is_directory directory = true
is_directory regular = false
is_directory fifo = false
is_directory block_device = false
is_directory other = false

abbrev pub is_fifo : InodeType → Bool
is_fifo fifo = true
is_fifo regular = false
is_fifo directory = false
is_fifo block_device = false
is_fifo other = false

abbrev pub is_block_device : InodeType → Bool
is_block_device block_device = true
is_block_device regular = false
is_block_device directory = false
is_block_device fifo = false
is_block_device other = false

pub record ResizedInode : Type 0 where
  pub i_type : InodeType
  pub is_append : Bool
  pub is_immutable : Bool
  pub is_swapfile : Bool
  pub s_maxbytes : ℤ
  pub i_size : ℤ

-- What the calls take from the rest of the kernel; a result is an error or 0. `dentry_needs_remove_privs`
-- may also be a mask above 0. `notify_change` is the result of the change, which sets
-- the size where it is 0.
pub record ResizeHost : Type 0 where
  pub mnt_want_write : ℤ
  pub inode_permission : ℤ
  pub get_write_access : ℤ
  pub break_lease : ℤ
  pub security_truncate : ℤ
  pub dentry_needs_remove_privs : ℤ
  pub notify_change : ℤ

-- The inode, and how many writers hold the mount and the inode.
pub record Resizing : Type 0 where
  pub inode : ResizedInode
  pub mount_writers : ℕ
  pub inode_writers : ℕ

unfoldable pub do_truncate : ResizeHost → ℤ → Resizing → ℤ × Resizing
do_truncate host length s =
    if is_neg length
    then (neg einval, s)
    else if is_neg host.dentry_needs_remove_privs
    then (host.dentry_needs_remove_privs, s)
    else if not (is_zero host.notify_change)
    then (host.notify_change, s)
    else (pos 0, record s { inode = record s.inode { i_size = length } })

abbrev pub hold_mount : Resizing → Resizing
hold_mount s = record s { mount_writers = s.mount_writers + 1 }

abbrev pub hold_inode : Resizing → Resizing
hold_inode s = record s { inode_writers = s.inode_writers + 1 }

-- `mnt_drop_write` and `put_write_access`
abbrev pub drop_mount : ℤ × Resizing → ℤ × Resizing
drop_mount (ret, s) = (ret, record s { mount_writers = s.mount_writers - 1 })

abbrev pub drop_inode : ℤ × Resizing → ℤ × Resizing
drop_inode (ret, s) = (ret, record s { inode_writers = s.inode_writers - 1 })

-- With the inode held for writing: up to `put_write_and_out`.
unfoldable pub truncate_held : ResizeHost → ℤ → Resizing → ℤ × Resizing
truncate_held host length s =
    if not (is_zero host.break_lease)
    then (host.break_lease, s)
    else if not (is_zero host.security_truncate)
    then (host.security_truncate, s)
    else do_truncate host length s

-- With the mount held for writing: up to `mnt_drop_write_and_out`.
unfoldable pub truncate_mounted : ResizeHost → ℤ → Resizing → ℤ × Resizing
truncate_mounted host length s =
    if not (is_zero host.inode_permission)
    then (host.inode_permission, s)
    else if s.inode.is_append
    then (neg eperm, s)
    else if not (is_zero host.get_write_access)
    then (host.get_write_access, s)
    else drop_inode (truncate_held host length (hold_inode s))

unfoldable pub vfs_truncate : ResizeHost → ℤ → Resizing → ℤ × Resizing
vfs_truncate host length s =
    if is_directory s.inode.i_type
    then (neg eisdir, s)
    else if not (is_regular s.inode.i_type)
    then (neg einval, s)
    else if not (is_zero host.mnt_want_write)
    then (host.mnt_want_write, s)
    else drop_mount (truncate_mounted host length (hold_mount s))

-- `do_sys_truncate`, of a path that `user_path_at` finds at once or not at all: the retries after
-- -ESTALE are not modelled.
unfoldable pub do_sys_truncate : ResizeHost → ℤ → ℤ → Resizing → ℤ × Resizing
do_sys_truncate host user_path_at length s =
    if is_neg length
    then (neg einval, s)
    else if not (is_zero user_path_at)
    then (user_path_at, s)
    else vfs_truncate host length s

-- The open file of a descriptor, by what the calls read of it.
pub record ResizedFile : Type 0 where
  pub is_largefile : Bool
  pub is_writable : Bool
  pub has_fallocate : Bool

-- `do_sys_ftruncate`; `none` is a descriptor without a file.
unfoldable pub do_sys_ftruncate :
    ResizeHost → Option ResizedFile → ℤ → Bool → Resizing → ℤ × Resizing
do_sys_ftruncate host file length small s = if is_neg length then (neg einval, s) else elim file [
  | none ↦ (neg ebadf, s)
  | some f ↦
      if not (is_regular s.inode.i_type) || not f.is_writable
      then (neg einval, s)
      else if (small && not f.is_largefile) && ltz (pos max_non_lfs) length
      then (neg einval, s)
      else if s.inode.is_append
      then (neg eperm, s)
      else if not (is_zero host.security_truncate)
      then (host.security_truncate, s)
      else do_truncate host length s
]
