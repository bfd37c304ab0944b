-- ===== src/ProcModules/DiskStats/Report.antt =====
-- What a read of /proc/disk_stats prints and leaves behind.
use so2_202003745_vd.Base.{ℕ, zero, suc, ◌+◌, ◌*◌, ◌≡◌, ◌≤◌, ◌<◌, [], ◌∷◌, pos, enter, arith, word}
use so2_202003745_vd.ProcModules.DiskStats.{
  State, Host, mount_point, total_space, free_space, proc_show,
}

-- A file system whose size fits in 64 bits is reported in bytes, and the free space printed is at
-- most the total printed; the call returns 0.
pub proc_show_sizes :
    (h : Host) (n : ℕ)
    → h.kern_path ≡ pos 0
    → h.vfs_statfs ≡ pos 0
    → h.stat.f_bfree ≤ h.stat.f_blocks
    → h.stat.f_bsize * h.stat.f_blocks < word
    → let total = h.stat.f_bsize * h.stat.f_blocks in
      let free = h.stat.f_bsize * h.stat.f_bfree in
      ((enter (proc_show h) (record { printed = []; path_references = n })).0 ≡ pos 0)
      × ((enter (proc_show h) (record { printed = []; path_references = n })).1.printed
          ≡ mount_point ∷ total_space total ∷ free_space free ∷ [])
      × (free ≤ total)
unfolding proc_show
proc_show_sizes h n path stat part fits =
    let less : h.stat.f_bsize * h.stat.f_bfree ≤ h.stat.f_bsize * h.stat.f_blocks = grind arith in
    (ground arith, ground arith, less)

-- Every read whose path lookup succeeds takes one reference on the root's path and gives none back,
-- whatever it prints or returns.
pub proc_show-references :
    (h : Host) (s : State)
    → h.kern_path ≡ pos 0
    → (enter (proc_show h) s).1.path_references ≡ s.path_references + 1
unfolding proc_show
proc_show-references h s path = ground arith

-- The state after a number of reads.
abbrev pub after_reads : Host → ℕ → State → State
after_reads h zero s = s
after_reads h (suc n) s = after_reads h n (enter (proc_show h) s).1

-- Where the path lookup succeeds, the references on the root's path only grow: after `n` reads of
-- /proc/disk_stats, `n` more of them are held.
pub reads_leak :
    (h : Host) (n : ℕ) (s : State)
    → h.kern_path ≡ pos 0
    → (after_reads h n s).path_references ≡ s.path_references + n
reads_leak h zero s path = omega arith
reads_leak h (suc n) s path =
    omega (arith, reads_leak h n (enter (proc_show h) s).1 path, proc_show-references h s path)
