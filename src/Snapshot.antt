-- ===== src/Snapshot.antt =====
-- `luis_capture_memory_snapshot`, Kernel/kernel/sys.c, and the program that reads a snapshot,
-- Pruebas/SyscallsP1/syscall1.c.
pub mod Layout
use so2_202003745_vd.Base.{
  ℕ, ◌+◌, ◌*◌, ◌%◌, ◌^◌, List, [], ◌∷◌, Option, none, some, Bool, true, false, not, ℤ, pos, neg,
  Call, ◌>>=◌, ◌>>◌, pure, modify, return_if, efault, einval, word,
}
use so2_202003745_vd.SysInfo.{SysInfo}

-- The numbers that the date is printed from.
pub record Date : Type 0 where
  pub year : ℕ
  pub month : ℕ
  pub day : ℕ
  pub hour : ℕ
  pub minute : ℕ
  pub second : ℕ

-- `struct memory_snapshot`; `snapshot_date` is the date that is printed into it
pub record MemorySnapshot : Type 0 where
  pub total_mem_kb : ℕ
  pub free_mem_kb : ℕ
  pub cached_mem_kb : ℕ
  pub dirty_page_count : ℕ
  pub slab_mem_kb : ℕ
  pub reclaimable_slab_mem_kb : ℕ
  pub active_page_count : ℕ
  pub inactive_page_count : ℕ
  pub total_swap_kb : ℕ
  pub snapshot_date : Date

-- `struct tm`
pub record Tm : Type 0 where
  pub tm_year : ℕ
  pub tm_mon : ℕ
  pub tm_mday : ℕ
  pub tm_hour : ℕ
  pub tm_min : ℕ
  pub tm_sec : ℕ

-- the counters of `global_node_page_state` that the call reads
pub data NodeStat : Type 0 where
  nr_active_anon nr_active_file nr_inactive_anon nr_inactive_file nr_file_dirty : NodeStat
  nr_slab_unreclaimable nr_slab_reclaimable : NodeStat

-- What the call takes from the rest of the kernel.
pub record Host : Type 0 where
  pub si_meminfo : SysInfo
  pub global_node_page_state : NodeStat → ℕ
  pub now : ℕ
  pub time64_to_tm : ℕ → Tm

-- `pages << (PAGE_SHIFT - 10)` in an unsigned long
abbrev pub pages_to_kb : ℕ → ℕ
pages_to_kb pages = pages * 2 ^ 2 % word

unfoldable pub fill_snapshot : Host → MemorySnapshot
fill_snapshot h =
    let tm = h.time64_to_tm h.now in
    record {
      total_mem_kb = pages_to_kb h.si_meminfo.totalram;
      free_mem_kb = pages_to_kb h.si_meminfo.freeram;
      cached_mem_kb = pages_to_kb h.si_meminfo.bufferram;
      total_swap_kb = pages_to_kb h.si_meminfo.totalswap;
      active_page_count =
          (h.global_node_page_state nr_active_anon + h.global_node_page_state nr_active_file)
          % word;
      inactive_page_count =
          (h.global_node_page_state nr_inactive_anon + h.global_node_page_state nr_inactive_file)
          % word;
      dirty_page_count = h.global_node_page_state nr_file_dirty;
      slab_mem_kb = pages_to_kb (h.global_node_page_state nr_slab_unreclaimable);
      reclaimable_slab_mem_kb = pages_to_kb (h.global_node_page_state nr_slab_reclaimable);
      snapshot_date = record {
        year = tm.tm_year + 1900;
        month = tm.tm_mon + 1;
        day = tm.tm_mday;
        hour = tm.tm_hour;
        minute = tm.tm_min;
        second = tm.tm_sec;
      };
    }

-- `luis_capture_memory_snapshot`: the state is the user's struct. `given` tells whether the
-- pointer is not NULL, `copied` whether the copy succeeds.
unfoldable pub luis_capture_memory_snapshot : Host → Bool → Bool → Call (Option MemorySnapshot) ℤ
luis_capture_memory_snapshot h given copied = do
  return_if (not given) (neg einval)
  return_if (not copied) (neg efault)
  modify (λ _. some (fill_snapshot h))
  pure (pos 0)

-- The nine words of the kernel's struct, in the order of its fields; the date follows them.
unfoldable pub snapshot_words : MemorySnapshot → List ℕ
snapshot_words s =
    s.total_mem_kb ∷ s.free_mem_kb ∷ s.cached_mem_kb ∷ s.dirty_page_count ∷ s.slab_mem_kb
    ∷ s.reclaimable_slab_mem_kb ∷ s.active_page_count ∷ s.inactive_page_count ∷ s.total_swap_kb ∷ []

-- The words of `struct memory_snapshot` as the test program declares it.
pub record UserSnapshot : Type 0 where
  pub total_mem_kb : ℕ
  pub free_mem_kb : ℕ
  pub active_page_count : ℕ
  pub inactive_page_count : ℕ
  pub total_swap_kb : ℕ
  pub slab_mem_kb : ℕ
  pub reclaimable_slab_mem_kb : ℕ

-- What the program sees in the words that the kernel has written.
unfoldable pub read_words : List ℕ → Option UserSnapshot
read_words (a ∷ b ∷ c ∷ d ∷ e ∷ f ∷ g ∷ rest) = some (record {
  total_mem_kb = a;
  free_mem_kb = b;
  active_page_count = c;
  inactive_page_count = d;
  total_swap_kb = e;
  slab_mem_kb = f;
  reclaimable_slab_mem_kb = g;
})
read_words _ = none

-- `sizeof` of a struct of that many longs and the 36 bytes of the date, in steps of 8
abbrev pub struct_size : ℕ → ℕ
struct_size longs = longs * 8 + 40
