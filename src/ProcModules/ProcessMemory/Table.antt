-- ===== src/ProcModules/ProcessMemory/Table.antt =====
-- The table of processes and the usage that it states.
use so2_202003745_vd.Base.{
  ℕ, ◌*◌, ◌/◌, ◌%◌, ◌^◌, ◌≡◌, ◌≤◌, ◌<◌, List, [], ◌∷◌, some, ℤ, is_zero, ◌==ℤ◌, if◌then◌else◌,
  arith, word,
}
use mathlib.Core.Path.{◌∙◌, ap₂}
use native.Mathlib.Nat.{div-le_of_le-mul}
use so2_202003745_vd.ProcModules.MemInfo.{Pages, pages_to_kb}
use so2_202003745_vd.ProcModules.ProcessMemory.{
  Process, Row, mem_usage, calculate_percentage, row_of, rows,
}

calculate_percentage_pos :
    (part total : ℕ) → 0 < total → calculate_percentage part total ≡ part * 100 % word / total
unfolding calculate_percentage
calculate_percentage_pos part total h = ground arith

-- For a process with no more pages resident than mapped, and sizes of which 64 bits hold ten
-- thousand times the bytes, the usage is the share of the mapped memory that is resident, in
-- hundredths of a percent rounded down, and never more than 100.00 percent.
pub mem_usage_share :
    (mm : Pages)
    → 0 < mm.total_vm
    → mm.rss ≤ mm.total_vm
    → mm.total_vm < 2 ^ 48
    → (mem_usage (some mm) ≡ mm.rss * 4 * 10000 / (mm.total_vm * 4)) × (mem_usage (some mm) ≤ 10000)
unfolding mem_usage
mem_usage_share mm some_mapped le small =
    let vsz : pages_to_kb mm.total_vm ≡ mm.total_vm * 4 = omega arith in
    let part : pages_to_kb mm.rss * 100 % word * 100 % word ≡ mm.rss * 4 * 10000 = omega arith in
    let share : mem_usage (some mm) ≡ mm.rss * 4 * 10000 / (mm.total_vm * 4) =
      calculate_percentage_pos (pages_to_kb mm.rss * 100 % word) (pages_to_kb mm.total_vm)
        (omega arith)
      ∙ ap₂ ◌/◌ part vsz in
    let bound : mm.rss * 4 * 10000 ≤ mm.total_vm * 4 * 10000 = omega arith in
    let most = div-le_of_le-mul (mm.total_vm * 4) bound in (share, rw share most)

-- Whether the process is in a list of processes that the table is about.
abbrev pub selected : ℤ → List Process → List Row
selected target_pid [] = []
selected target_pid (task ∷ rest) =
    if task.pid ==ℤ target_pid
    then row_of task ∷ selected target_pid rest
    else selected target_pid rest

abbrev pub all_rows : List Process → List Row
all_rows [] = []
all_rows (task ∷ rest) = row_of task ∷ all_rows rest

-- With target 0 the table has a row for every process, in order; with any other target it has
-- exactly the rows of the processes with that pid.
pub rows-selected :
    (target_pid : ℤ) (processes : List Process)
    → rows target_pid processes
      ≡ (if is_zero target_pid then all_rows processes else selected target_pid processes)
unfolding rows
rows-selected target_pid [] = ground arith
rows-selected target_pid (task ∷ rest) = ground (arith, rows-selected target_pid rest)
