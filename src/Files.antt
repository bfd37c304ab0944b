-- ===== src/Files.antt =====
-- Open files, Kernel/fs/read_write.c: positions and seeking, reading, writing, and the limits on
-- both. The children have the operations; here is the state that they share.
pub mod Seek
pub mod Area
pub mod Transfer
pub mod WriteLimits
pub mod CopyChecks
pub mod Vectors
pub mod CopyRange
pub mod Sendfile
use so2_202003745_vd.Base.{ℕ, Bool, ℤ, pos, neg, is_neg, ◌==◌, ◌==ℤ◌, if◌then◌else◌}

-- The bits of `f_mode` that the file reads.
pub record Mode : Type 0 where
  pub fmode_read : Bool
  pub fmode_write : Bool
  pub fmode_lseek : Bool
  pub fmode_pread : Bool
  pub fmode_pwrite : Bool
  pub fmode_can_read : Bool
  pub fmode_can_write : Bool
  pub fmode_stream : Bool
  pub fmode_unsigned_offset : Bool
  pub fmode_buf_wasync : Bool

-- The fields of `struct file` that the file reads or writes; `f_flags` only for the two bits named.
pub record File : Type 0 where
  pub f_mode : Mode
  pub f_pos : ℤ
  pub f_version : ℕ
  pub o_largefile : Bool
  pub o_append : Bool

-- `unsigned_offsets`
abbrev pub unsigned_offsets : File → Bool
unsigned_offsets file = file.f_mode.fmode_unsigned_offset
