-- ===== src/ProcModules/MemInfo.antt =====
-- The module Modulos/mem_infoP2/luis_mem_info.c.
pub mod Totals
use so2_202003745_vd.Base.{
  ℕ, ◌+◌, ◌*◌, ◌/◌, ◌%◌, ◌^◌, List, [], ◌∷◌, Option, none, some, ◌==◌, if◌then◌else◌, word,
}

-- The pages of a process: mapped (`mm->total_vm`) and resident (`get_mm_rss(mm)`).
pub record Pages : Type 0 where
  pub total_vm : ℕ
  pub rss : ℕ

-- `calculate_percentage`, which nothing calls
unfoldable pub calculate_percentage : ℕ → ℕ → ℕ
calculate_percentage part total = if total == 0 then 0 else part * 10000 % word / total

-- `pages << (PAGE_SHIFT - 10)` in an unsigned long
abbrev pub pages_to_kb : ℕ → ℕ
pages_to_kb pages = pages * 2 ^ 2 % word

-- The two sums in KiB; a process without address space, `task->mm` NULL, is passed over.
unfoldable pub sum_memory : List (Option Pages) → ℕ × ℕ → ℕ × ℕ
sum_memory [] (reserved, committed) = (reserved, committed)
sum_memory (none ∷ rest) (reserved, committed) = sum_memory rest (reserved, committed)
sum_memory (some mm ∷ rest) (reserved, committed) =
    sum_memory rest
      ((reserved + pages_to_kb mm.total_vm) % word, (committed + pages_to_kb mm.rss) % word)

-- `meminfo_show`: the reserved and the committed memory in MiB
unfoldable pub meminfo_show : List (Option Pages) → ℕ × ℕ
meminfo_show processes =
    let (reserved, committed) = sum_memory processes (0, 0) in (reserved / 1024, committed / 1024)
