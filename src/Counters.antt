-- ===== src/Counters.antt =====
-- The counters of system calls: `open_call_counter` of Kernel/fs/open.c, `read_call_counter` and
-- `write_call_counter` of Kernel/fs/read_write.c, `fork_call_counter` of Kernel/kernel/fork.c, and
-- `luis_track_syscall_usage` of Kernel/kernel/sys.c, which reports them.
pub mod Laws
use so2_202003745_vd.Base.{
  ℕ, ◌+◌, List, [], ◌∷◌, Option, none, some, Bool, true, false, ℤ, pos, neg, if◌then◌else◌, efault,
}

-- the four global counters
pub record Counters : Type 0 where
  pub open_call_counter : ℕ
  pub read_call_counter : ℕ
  pub write_call_counter : ℕ
  pub fork_call_counter : ℕ

-- as they are defined, at 0
abbrev pub at_boot : Counters
at_boot = record {
  open_call_counter = 0;
  read_call_counter = 0;
  write_call_counter = 0;
  fork_call_counter = 0;
}

-- The system calls that open, read, write or fork, by their names.
pub data SystemCall : Type 0 where
  sys_open openat openat2 compat_open compat_openat creat : SystemCall
  read pread64 readv preadv : SystemCall
  write pwrite64 writev pwritev : SystemCall
  fork vfork clone clone3 : SystemCall

-- what `do_sys_open` does to the counters
abbrev pub do_sys_open : Counters → Counters
do_sys_open c = record c { open_call_counter = c.open_call_counter + 1 }

-- what `read`, `write` and `clone` do to them
abbrev pub count_read : Counters → Counters
count_read c = record c { read_call_counter = c.read_call_counter + 1 }

abbrev pub count_write : Counters → Counters
count_write c = record c { write_call_counter = c.write_call_counter + 1 }

abbrev pub count_clone : Counters → Counters
count_clone c = record c { fork_call_counter = c.fork_call_counter + 1 }

-- what each system call does to the counters
unfoldable pub system_call : SystemCall → Counters → Counters
system_call sys_open c = do_sys_open c
system_call openat c = do_sys_open c
system_call openat2 c = c
system_call compat_open c = do_sys_open c
system_call compat_openat c = do_sys_open c
system_call creat c = do_sys_open c
system_call read c = count_read c
system_call pread64 c = c
system_call readv c = c
system_call preadv c = c
system_call write c = count_write c
system_call pwrite64 c = c
system_call writev c = c
system_call pwritev c = c
system_call fork c = c
system_call vfork c = c
system_call clone c = count_clone c
system_call clone3 c = c

-- `struct track_counters`
pub record TrackCounters : Type 0 where
  pub counter_open : ℕ
  pub counter_read : ℕ
  pub counter_write : ℕ
  pub counter_fork : ℕ

-- `luis_track_syscall_usage`; `copied` tells whether the copy to user space succeeds
unfoldable pub luis_track_syscall_usage : Counters → Bool → ℤ × Option TrackCounters
luis_track_syscall_usage c copied =
    if copied
    then (
      pos 0,
      some (record {
        counter_write = c.write_call_counter;
        counter_read = c.read_call_counter;
        counter_open = c.open_call_counter;
        counter_fork = c.fork_call_counter;
      }),
    )
    else (neg efault, none)
