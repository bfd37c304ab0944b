-- ===== src/ProcModules.antt =====
-- The kernel modules under Modulos/, each behind a file of /proc: how they come and go. Their
-- reports are in the children.
pub mod CpuStats
pub mod DiskStats
pub mod MemStats
pub mod MemInfo
pub mod ProcessMemory
pub mod Lifecycle
use so2_202003745_vd.Base.{Bool, true, false, ℤ, pos, neg, enomem, if◌then◌else◌}

-- The five modules, by the names of their files in /proc.
pub data Name : Type 0 where
  cpu_stats disk_stats mem_stats luis_mem_info luis_mem_process : Name

unfoldable pub same_name : Name → Name → Bool
same_name cpu_stats cpu_stats = true
same_name disk_stats disk_stats = true
same_name mem_stats mem_stats = true
same_name luis_mem_info luis_mem_info = true
same_name luis_mem_process luis_mem_process = true
same_name _ _ = false

-- which of the files exist
abbrev pub Proc : Type 0
Proc = Name → Bool

abbrev pub set_entry : Name → Bool → Proc → Proc
set_entry name b proc other = if same_name name other then b else proc other

-- `proc_create`, told by the kernel whether it succeeds
abbrev pub proc_create : Name → Bool → Proc → Proc
proc_create name created proc = if created then set_entry name true proc else proc

-- The init functions: what they return, and the files then. The first three test the result of
-- `proc_create`, the other two do not.
abbrev pub created_or_nomem : Name → Bool → Proc → ℤ × Proc
created_or_nomem name created proc =
    (if created then pos 0 else neg enomem, proc_create name created proc)

unfoldable pub cpu_stats_init : Bool → Proc → ℤ × Proc
cpu_stats_init created proc = created_or_nomem cpu_stats created proc

unfoldable pub disk_stats_init : Bool → Proc → ℤ × Proc
disk_stats_init created proc = created_or_nomem disk_stats created proc

unfoldable pub mem_stats_init : Bool → Proc → ℤ × Proc
mem_stats_init created proc = created_or_nomem mem_stats created proc

unfoldable pub mem_info_init : Bool → Proc → ℤ × Proc
mem_info_init created proc = (pos 0, proc_create luis_mem_info created proc)

unfoldable pub mem_process_init : Bool → Proc → ℤ × Proc
mem_process_init created proc = (pos 0, proc_create luis_mem_process created proc)

-- the exit functions
unfoldable pub cpu_stats_exit : Proc → Proc
cpu_stats_exit proc = set_entry cpu_stats false proc

unfoldable pub disk_stats_exit : Proc → Proc
disk_stats_exit proc = set_entry disk_stats false proc

unfoldable pub mem_stats_exit : Proc → Proc
mem_stats_exit proc = set_entry mem_stats false proc

unfoldable pub mem_info_exit : Proc → Proc
mem_info_exit proc = set_entry luis_mem_info false proc

unfoldable pub mem_process_exit : Proc → Proc
mem_process_exit proc = set_entry luis_mem_process false proc

-- Loading and unloading a module.
unfoldable pub init : Name → Bool → Proc → ℤ × Proc
unfolding cpu_stats_init disk_stats_init mem_stats_init mem_info_init mem_process_init
init cpu_stats created proc = cpu_stats_init created proc
init disk_stats created proc = disk_stats_init created proc
init mem_stats created proc = mem_stats_init created proc
init luis_mem_info created proc = mem_info_init created proc
init luis_mem_process created proc = mem_process_init created proc

unfoldable pub exit : Name → Proc → Proc
unfolding cpu_stats_exit disk_stats_exit mem_stats_exit mem_info_exit mem_process_exit
exit cpu_stats proc = cpu_stats_exit proc
exit disk_stats proc = disk_stats_exit proc
exit mem_stats proc = mem_stats_exit proc
exit luis_mem_info proc = mem_info_exit proc
exit luis_mem_process proc = mem_process_exit proc
