-- ===== src/ProcModules/ProcessMemory.antt =====
-- The module Modulos/Indivual_process/luis_mem_process.c.
pub mod Table
pub mod Target
use so2_202003745_vd.Base.{
  ℕ, zero, suc, ◌+◌, ◌*◌, ◌/◌, ◌%◌, ◌^◌, List, [], ◌∷◌, length, Option, none, some, Bool, true,
  false, ◌&&◌, not, ℤ, pos, neg, ltb, ◌==◌, ◌==ℤ◌, is_zero, if◌then◌else◌, Call, ◌>>=◌, ◌>>◌, pure,
  modify, return_if, einval, efault, word,
}
use so2_202003745_vd.ProcModules.MemInfo.{Pages, pages_to_kb}

-- What the module reads of a process; `mm` is none where `task->mm` is NULL.
pub record Process : Type 0 where
  pub pid : ℤ
  pub comm : List ℕ
  pub mm : Option Pages
  pub oom_score_adj : ℤ

-- A line of the table; the usage is printed as whole percent and hundredths.
pub record Row : Type 0 where
  pub pid : ℤ
  pub comm : List ℕ
  pub vsz : ℕ
  pub rss : ℕ
  pub usage_whole : ℕ
  pub usage_hundredths : ℕ
  pub oom_score_adj : ℤ

-- `calculate_percentage` in unsigned longs
unfoldable pub calculate_percentage : ℕ → ℕ → ℕ
calculate_percentage part total = if total == 0 then 0 else part * 100 % word / total

-- `mem_usage` of a process
unfoldable pub mem_usage : Option Pages → ℕ
unfolding calculate_percentage
mem_usage none = 0
mem_usage (some mm) =
    calculate_percentage (pages_to_kb mm.rss * 100 % word) (pages_to_kb mm.total_vm)

-- the sizes in KiB of a process
abbrev pub vsz_of : Option Pages → ℕ
vsz_of none = 0
vsz_of (some mm) = pages_to_kb mm.total_vm

abbrev pub rss_of : Option Pages → ℕ
rss_of none = 0
rss_of (some mm) = pages_to_kb mm.rss

unfoldable pub row_of : Process → Row
row_of task = record {
  pid = task.pid;
  comm = task.comm;
  vsz = vsz_of task.mm;
  rss = rss_of task.mm;
  usage_whole = mem_usage task.mm / 100;
  usage_hundredths = mem_usage task.mm % 100;
  oom_score_adj = task.oom_score_adj;
}

-- `target_pid != 0 && task->pid != target_pid`
abbrev pub is_skipped : ℤ → Process → Bool
is_skipped target_pid task = not (is_zero target_pid) && not (task.pid ==ℤ target_pid)

unfoldable pub rows : ℤ → List Process → List Row
rows target_pid [] = []
rows target_pid (task ∷ rest) =
    let others = rows target_pid rest in
    if is_skipped target_pid task then others else row_of task ∷ others

-- `meminfo_show`: the total in KiB that the first line states, and the table
unfoldable pub meminfo_show : ℤ → ℕ → List Process → ℕ × List Row
meminfo_show target_pid totalram processes = (totalram * 4 % word, rows target_pid processes)

-- Whether the text is "0" up to its NUL.
abbrev pub is_zero_text : List ℕ → Bool
is_zero_text [] = false
is_zero_text (c ∷ []) = c == b'0'
is_zero_text (c ∷ d ∷ rest) = (c == b'0') && (d == 0)

-- what `sscanf(input, "%d", &target_pid)` stores: nothing if there is no number
abbrev pub scanned : Option ℤ → ℤ → ℤ
scanned none target_pid = target_pid
scanned (some n) target_pid = n

-- `meminfo_write`: the state is `target_pid`. `copied` tells whether the copy from user space
-- succeeds, `sscanf` what the kernel's `sscanf` finds in a text.
unfoldable pub meminfo_write : (List ℕ → Option ℤ) → List ℕ → Bool → Call ℤ ℤ
meminfo_write sscanf buf copied = do
  return_if (ltb 9 (length buf)) (neg einval)
  return_if (not copied) (neg efault)
  modify (λ target_pid. if is_zero_text buf then pos 0 else scanned (sscanf buf) target_pid)
  pure (pos (length buf))
