-- ===== src/ProcModules/DiskStats.antt =====
-- The module Modulos/disk_stats/disk_stats.c.
pub mod Report
use so2_202003745_vd.Base.{
  ℕ, ◌+◌, ◌*◌, ◌%◌, List, [], ◌∷◌, ◌++◌, ℤ, pos, is_zero, not, if◌then◌else◌, Call, ◌>>=◌, ◌>>◌,
  pure, modify, return_if, Result, ok, err, word,
}

-- The fields of `struct kstatfs` that are read.
pub record Kstatfs : Type 0 where
  pub f_bsize : ℕ
  pub f_bfree : ℕ
  pub f_blocks : ℕ

-- the lines that are printed
pub data Line : Type 0 where
  path_error stat_error : ℤ → Line
  mount_point : Line
  total_space free_space : ℕ → Line

-- The text printed so far, and the references held on the root directory's path: `kern_path` takes
-- one when it succeeds.
pub record State : Type 0 where
  pub printed : List Line
  pub path_references : ℕ

-- what `kern_path` and `vfs_statfs` return, and the struct that the second fills
pub record Host : Type 0 where
  pub kern_path : ℤ
  pub vfs_statfs : ℤ
  pub stat : Kstatfs

abbrev print : Line → Call State (Unit {0})
print line = modify λ s. record s { printed = s.printed ++ (line ∷ []) }

-- `if (ret) { seq_printf(...); return ret; }`
abbrev fail_with : ℤ → Line → Call State (Unit {0})
fail_with ret line s = (
  if is_zero ret then ok tt else err ret,
  record s { printed = if is_zero ret then s.printed else s.printed ++ (line ∷ []) },
)

-- `kern_path`, with the reference that it takes
abbrev take_path : ℤ → Call State (Unit {0})
take_path ret = modify λ s. record s {
  path_references = if is_zero ret then s.path_references + 1 else s.path_references;
}

-- `proc_show`
unfoldable pub proc_show : Host → Call State ℤ
proc_show h = do
  take_path h.kern_path
  fail_with h.kern_path (path_error h.kern_path)
  fail_with h.vfs_statfs (stat_error h.vfs_statfs)
  print mount_point
  print (total_space (h.stat.f_bsize * h.stat.f_blocks % word))
  print (free_space (h.stat.f_bsize * h.stat.f_bfree % word))
  pure (pos 0)
