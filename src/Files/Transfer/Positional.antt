-- ===== src/Files/Transfer/Positional.antt =====
-- `pread64` and `pwrite64` beside `read` and `write`.
use so2_202003745_vd.Base.{◌≡◌, ℕ, true, false, ℤ, is_neg, arith}
use so2_202003745_vd.Files.Area.{rw_verify_area}
use so2_202003745_vd.Files.Transfer.{
  World, Driver, vfs_read, vfs_write, dispatch_read, dispatch_write, ksys_read, ksys_write,
  ksys_pread64, ksys_pwrite64,
}

-- the world with the file at a position
abbrev pub at : ℤ → World → World
at p w = record w { file = record w.file { f_pos = p } }

-- For a file with positions that may be read at any, `pread64` at an offset that is not negative does
-- what `read` does to the file placed at that offset, and leaves the file's own position alone: the
-- same return value, calls of the file's methods, notices and charges.
pub pread-read :
    (k : Driver) (count : ℕ) (p : ℤ) (w : World)
    → k.fdget ≡ true
    → w.file.f_mode.fmode_pread ≡ true
    → w.file.f_mode.fmode_stream ≡ false
    → is_neg p ≡ false
    → let (ret, w') = ksys_read k count (at p w) in
      ksys_pread64 k count p w ≡ (ret, record w' { file = w.file })
unfolding ksys_read ksys_pread64 vfs_read dispatch_read rw_verify_area
pread-read k count p w open_file seekable positions nonneg = ground arith

-- So does `pwrite64` beside `write`.
pub pwrite-write :
    (k : Driver) (count : ℕ) (p : ℤ) (w : World)
    → k.fdget ≡ true
    → w.file.f_mode.fmode_pwrite ≡ true
    → w.file.f_mode.fmode_stream ≡ false
    → is_neg p ≡ false
    → let (ret, w') = ksys_write k count (at p w) in
      ksys_pwrite64 k count p w ≡ (ret, record w' { file = w.file })
unfolding ksys_write ksys_pwrite64 vfs_write dispatch_write rw_verify_area
pwrite-write k count p w open_file seekable positions nonneg = ground arith
