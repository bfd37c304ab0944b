-- ===== src/Snapshot/Layout.antt =====
-- What a snapshot holds, and what the test program makes of it.
use so2_202003745_vd.Base.{
  ◌*◌, ◌^◌, ◌≡◌, ◌≢◌, ◌≤◌, ◌<◌, refl, Option, some, Bool, pos, enter, arith,
}
use so2_202003745_vd.Snapshot.{
  MemorySnapshot, Host, fill_snapshot, luis_capture_memory_snapshot, snapshot_words, read_words,
}

-- The test program's struct lacks `cached_mem_kb` and `dirty_page_count` and has the other fields
-- in another order, so from the third word on it shows a number of another kind: the cache as
-- active pages, the dirty pages as inactive ones, slab memory as swap, reclaimable slab as slab,
-- active pages as reclaimable slab.
pub read_words-snapshot_words :
    (s : MemorySnapshot)
    → read_words (snapshot_words s)
      ≡ some (record {
        total_mem_kb = s.total_mem_kb;
        free_mem_kb = s.free_mem_kb;
        active_page_count = s.cached_mem_kb;
        inactive_page_count = s.dirty_page_count;
        total_swap_kb = s.slab_mem_kb;
        slab_mem_kb = s.reclaimable_slab_mem_kb;
        reclaimable_slab_mem_kb = s.active_page_count;
      })
unfolding read_words snapshot_words
read_words-snapshot_words s = refl

-- On a machine whose page counts leave room for two more bits, a snapshot that is returned states
-- the four sizes in KiB, four for each page, and no size exceeds the total that it is part of.
pub snapshot_in_kb :
    (h : Host) (given copied : Bool) (before : Option MemorySnapshot)
    → h.si_meminfo.totalram < 2 ^ 62
    → h.si_meminfo.totalswap < 2 ^ 62
    → h.si_meminfo.freeram ≤ h.si_meminfo.totalram
    → h.si_meminfo.bufferram ≤ h.si_meminfo.totalram
    → (enter (luis_capture_memory_snapshot h given copied) before).0 ≡ pos 0
    → (s : MemorySnapshot) × ((enter (luis_capture_memory_snapshot h given copied) before).1
        ≡ some s)
      × (s.total_mem_kb ≡ 4 * h.si_meminfo.totalram)
      × (s.free_mem_kb ≡ 4 * h.si_meminfo.freeram)
      × (s.cached_mem_kb ≡ 4 * h.si_meminfo.bufferram)
      × (s.total_swap_kb ≡ 4 * h.si_meminfo.totalswap)
      × (s.free_mem_kb ≤ s.total_mem_kb)
      × (s.cached_mem_kb ≤ s.total_mem_kb)
unfolding luis_capture_memory_snapshot fill_snapshot
snapshot_in_kb h given copied before ram swap free buffers e = (
  fill_snapshot h,
  ground arith,
  omega arith,
  omega arith,
  omega arith,
  omega arith,
  omega arith,
  omega arith,
)

-- A call that fails writes nothing.
pub snapshot_fails :
    (h : Host) (given copied : Bool) (before : Option MemorySnapshot)
    → (enter (luis_capture_memory_snapshot h given copied) before).0 ≢ pos 0
    → (enter (luis_capture_memory_snapshot h given copied) before).1 ≡ before
unfolding luis_capture_memory_snapshot
snapshot_fails h given copied before n = ground arith
