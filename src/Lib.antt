-- ===== src/Lib.antt =====
-- A model of the operating system project in this repository: a Linux kernel whose system calls
-- were extended, and five kernel modules that report through /proc.
--
-- Parts, their sources and their files here:
--   * Kernel/kernel/fase3/syscall3.c, four system calls that limit the memory of processes:
--     MemoryLimits. `memory_limitation_head` is the list `nodes` of the record `State`; the limits
--     that processes have are its `machine`. A pointer to a node is the node's place in the list.
--     The calls set a limit through `do_prlimit` of Kernel/kernel/sys.c.
--   * Kernel/kernel/sys.c, resource limits (`do_prlimit`, `prlimit64`, `getrlimit`, `setrlimit` and
--     their 32-bit forms): Rlimit.
--   * Kernel/kernel/sys.c, user and group ids (`__sys_setuid` and its like): Credentials.
--   * Kernel/kernel/sys.c, `setpriority` and `getpriority`: Priority.
--   * Kernel/kernel/sys.c, `prctl`: Prctl, with the options that the call serves itself; `prctl_set_mm`
--     in Prctl/SetMm, on the bounds and the auxiliary vector of an address space; its executable file,
--     with `set_mm_exe_file` and its like of Kernel/kernel/fork.c, in Prctl/ExeFile.
--   * Kernel/kernel/sys.c, `sethostname`, `gethostname` and `setdomainname`: Hostname.
--   * Kernel/kernel/sys.c, `getrusage`, `times`, `umask` and `getcpu`: Usage.
--   * Kernel/kernel/sys.c, process groups and sessions (`setpgid`, `ksys_setsid` and the calls that
--     read them): ProcessGroups.
--   * Kernel/kernel/sys.c, `do_sysinfo`, `sysinfo` and the 32-bit `sysinfo`: SysInfo.
--   * Kernel/kernel/sys.c, the calls that the project added: `luis_capture_memory_snapshot` in
--     Snapshot, `luis_track_syscall_usage` in Counters with the places in Kernel/fs/open.c,
--     Kernel/fs/read_write.c and Kernel/kernel/fork.c that count, `luis_get_io_throttle` in
--     IoThrottle, `luis_tamalloc` in Tamalloc.
--   * Kernel/kernel/fork.c: Clone, with the flags and the state in Clone itself, the copies of what a
--     process uses (`copy_files` to `copy_mm`) in Clone/Resources, `copy_process` in
--     Clone/CopyProcess, `kernel_clone` and the calls that fork in Clone/Calls, `clone3` in
--     Clone/Clone3, and `unshare` in Clone/Unshare. The state is the reference counts by address. The
--     limits that a child gets are in Clone/Signal, on the `machine` of Rlimit; `walk_process_tree` is in
--     Clone/WalkTree and `set_max_threads` in Clone/Limits.
--   * Kernel/fs/read_write.c: Files, with seeking in Files/Seek, `rw_verify_area` in Files/Area,
--     reading and writing in Files/Transfer, `readv`, `preadv2` and their like in Files/Vectors, the
--     limits on a write in Files/WriteLimits, the checks of a copy in Files/CopyChecks, the copy
--     in Files/CopyRange and `sendfile` in Files/Sendfile. The state is the open file, its position
--     included; where there are two files it is the positions of both by their numbers.
--   * Kernel/fs/open.c: Opening, with `build_open_how` and `build_open_flags` in Opening/Flags,
--     `do_sys_openat2` and the calls above it in Opening/Openat2, `truncate` and `ftruncate` in
--     Opening/Resize, `fallocate` in Opening/Fallocate, `access` in Opening/Access, and
--     `do_dentry_open`, the callbacks for drivers and `close` in Opening/Dentry.
--   * Kernel/Init/main.c: Start, with the arguments and the environment of the first program in
--     Start/Options, the initcalls in Start/Initcalls and the choice of the first program in
--     Start/Init.
--   * Modulos/cpu_stats/cpu_stats.c, Modulos/disk_stats/disk_stats.c,
--     Modulos/memory_stats/memory_stats.c, Modulos/mem_infoP2/luis_mem_info.c and
--     Modulos/Indivual_process/luis_mem_process.c: ProcModules.
--   * Pruebas/SyscallsP1/syscall1.c, the layout that the program assumes: Snapshot.
-- Base has the shared names and the monad `Call`, in which a system call reads and changes a state
-- and ends by the number that it returns; Task has the fields of the task struct that are read.
-- Examples runs the model on concrete inputs.
--
-- What is outside the repository is a parameter: capabilities, security hooks, allocators, lookups
-- of processes, copies between kernel and user space, clocks, counters of pages, `sscanf`. It stands
-- in a record `Host`, `Kernel`, `Caller` or `UserAccess` of its component, or is an argument. A copy
-- to user space that fails writes nothing in the model, but for that of `luis_tamalloc`, which may
-- have written some of the bytes.
--
-- Integers: a number that C keeps in an unsigned type is a natural number, and arithmetic that can
-- wrap has `% word` (2 ^ 64) or `% 2 ^ 32` written out; pids and return values are integers. Lists
-- of processes and entries stand in for the kernel's linked lists in their order.
--
-- Fuel: the loop over `mem_unit` in `do_sysinfo` has 33 rounds, one for each bit of an unsigned int
-- and the last test; the loop of the 32-bit `sysinfo`, which doubles an unsigned int up to the page
-- size of 2 ^ 12, has 13 in the same way. The loop of `walk_process_tree` takes its fuel as an argument; a
-- round for each thread and two for each descendant, and one more, are enough. All other loops run over a list.
--
-- A word of flags is a number whose bits are read by division (Clone), or a record of its bits and
-- of the unknown rest (Opening, the modes of Files). The numbers of the flags are those of the
-- kernel headers for x86, which are not in the repository.
--
-- Not modelled: locks, since each call is one step; retries after -ESTALE; reference counts other
-- than those of a path in disk_stats, of the structures that a clone shares, of executable files and
-- of what an open holds; the steps of `copy_process` that concern scheduling, audit, namespaces and
-- control groups, which are results given to the model; the rest of Kernel/kernel/sys.c,
-- Kernel/fs/open.c and Kernel/kernel/fork.c, of which `uname`, `chmod`, `chown` and the
-- life of an address space are planned; the rest of Kernel/fs/read_write.c, which converts the
-- arguments of 32-bit programs or calls what is outside the repository; in Kernel/Init/main.c the
-- command line, the boot configuration and the calls into parts of the kernel outside the
-- repository; the text around the numbers that the modules print; the programs under
-- Pruebas and fase3_pruebas.
pub mod Base
pub mod Task
pub mod Rlimit
pub mod MemoryLimits
pub mod Credentials
pub mod SysInfo
pub mod Start
pub mod Usage
pub mod Snapshot
pub mod Counters
pub mod IoThrottle
pub mod Tamalloc
pub mod ProcModules
pub mod ProcessGroups
pub mod Priority
pub mod Prctl
pub mod Hostname
pub mod Clone
pub mod Files
pub mod Opening
pub mod Examples
