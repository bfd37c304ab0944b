-- ===== src/Examples/Reports.antt =====
-- Runs of the calls and modules that report on memory, processors and processes.
use so2_202003745_vd.Base.{
  ℕ, ◌≡◌, ◌≤◌, refl, [], ◌∷◌, pos, arith, ok, List, if◌then◌else◌, ◌==◌, ◌&&◌,
}
use so2_202003745_vd.SysInfo.{SysInfo, normalise}
use so2_202003745_vd.SysInfo.Scale.{SameBytes, normalise-SameBytes}
use so2_202003745_vd.Tamalloc as Alloc
use so2_202003745_vd.ProcModules.CpuStats.{Prev, usage_of}
use so2_202003745_vd.ProcModules.CpuStats.Usage.{usage_of-percent}

-- 8 GiB of RAM, half of it free, in units of a page
abbrev info : SysInfo
info = record {
  uptime = 60;
  loads = (1, 2, 3);
  totalram = 2097152;
  freeram = 1048576;
  sharedram = 0;
  bufferram = 1000;
  totalswap = 524288;
  freeswap = 524288;
  procs = 90;
  totalhigh = 0;
  freehigh = 0;
  mem_unit = 4096;
}

normalise-SameBytes_example : SameBytes (normalise info) info
normalise-SameBytes_example =
    normalise-SameBytes info 12 refl (omega arith) (omega arith) (omega arith) (omega arith)

abbrev unmap : ℕ → ℕ → List (ℕ × ℕ) → List (ℕ × ℕ)
unmap addr len [] = []
unmap addr len ((a, l) ∷ rest) =
    if (a == addr) && (l == len) then rest else (a, l) ∷ unmap addr len rest

abbrev allocator : Alloc.Host
allocator = record { vm_mmap = λ mappings len. ok 0x7000; vm_munmap = unmap }

abbrev process : Alloc.Process
process = record { mappings = []; user_addr = λ i. 0 }

abbrev earlier : Prev
earlier = record { prev_idle_time = 100; prev_total_time = 200 }

usage_of-percent_example :
    (usage_of 175 300 earlier ≡ (pos 25, record { prev_idle_time = 175; prev_total_time = 300 }))
    × (25 ≤ 100)
usage_of-percent_example =
    usage_of-percent 175 300 earlier (omega arith) (omega arith) (omega arith) (omega arith)
      (omega arith) (omega arith)
