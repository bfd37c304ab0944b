-- ===== src/ProcModules/ProcessMemory/Target.antt =====
-- Writing the process to show.
use so2_202003745_vd.Base.{
  ℕ, ◌≡◌, ◌≤◌, ◌<◌, ◌⊎◌, List, [], ◌∷◌, length, Option, none, some, Bool, true, false, ℤ, pos, neg,
  is_zero, enter, arith, einval, efault,
}
use so2_202003745_vd.ProcModules.ProcessMemory.{Process, meminfo_write, meminfo_show, is_zero_text}
use so2_202003745_vd.ProcModules.ProcessMemory.Table.{selected, all_rows, rows-selected}

-- A text of at most nine bytes in which a number other than 0 is found makes the next read show
-- exactly the processes with that pid; the write returns the number of bytes.
pub show-write :
    (sscanf : List ℕ → Option ℤ) (buf : List ℕ) (pid old : ℤ) (totalram : ℕ)
    (processes : List Process)
    → length buf ≤ 9
    → is_zero_text buf ≡ false
    → sscanf buf ≡ some pid
    → is_zero pid ≡ false
    → let (ret, target_pid) = enter (meminfo_write sscanf buf true) old in
      (ret ≡ pos (length buf))
      × ((meminfo_show target_pid totalram processes).1 ≡ selected pid processes)
unfolding meminfo_write meminfo_show
show-write sscanf buf pid old totalram processes short text found nonzero =
    ground (arith, rows-selected pid processes)

-- The text "0" makes it show all processes, whatever `sscanf` would find.
pub show-write_zero :
    (sscanf : List ℕ → Option ℤ) (old : ℤ) (totalram : ℕ) (processes : List Process)
    → (meminfo_show (enter (meminfo_write sscanf (b'0' ∷ []) true) old).1 totalram processes).1
      ≡ all_rows processes
unfolding meminfo_write meminfo_show
show-write_zero sscanf old totalram processes = ground (arith, rows-selected (pos 0) processes)

-- A text in which no number is found is accepted, returns its length and changes nothing; a text
-- of ten bytes or more, or one that cannot be read, is refused and changes nothing.
pub write_ignored :
    (sscanf : List ℕ → Option ℤ) (buf : List ℕ) (copied : Bool) (old : ℤ)
    → is_zero_text buf ≡ false
    → (sscanf buf ≡ none) ⊎ ((9 < length buf) ⊎ (copied ≡ false))
    → let (ret, target_pid) = enter (meminfo_write sscanf buf copied) old in
      (target_pid ≡ old) × ((ret ≡ pos (length buf)) ⊎ ((ret ≡ neg einval) ⊎ (ret ≡ neg efault)))
unfolding meminfo_write
write_ignored sscanf buf copied old text why = ground arith
