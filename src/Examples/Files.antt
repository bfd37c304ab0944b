-- ===== src/Examples/Files.antt =====
-- Seeking, reading, writing and copying.
use so2_202003745_vd.Base.{
  ℕ, ◌+◌, ◌≤◌, ◌<◌, ◌≡◌, ◌⊎◌, refl, List, [], ◌∷◌, none, some, true, false, ℤ, pos, negsuc, neg, ok,
  arith, efbig, to_word,
}
use so2_202003745_vd.Task.{Task}
use so2_202003745_vd.Rlimit.{
  Machine, Rlimit, Host, do_prlimit, new_rlim_check, raise_check, rlim_infinity,
}
use so2_202003745_vd.Files.{Mode, File}
use so2_202003745_vd.Files.Seek.{Inode}
use so2_202003745_vd.Files.Seek.Bounds.{IsWithin, after_seeks, after_seeks-IsWithin}
use so2_202003745_vd.Files.WriteLimits.{
  Target, Request, rlimit_fsize, generic_write_check_limits, max_size,
}
use so2_202003745_vd.Files.WriteLimits.Bounds.{request}
use so2_202003745_vd.Files.WriteLimits.AfterPrlimit.{do_prlimit-generic_write_check_limits}

abbrev every_mode : Mode
every_mode = record {
  fmode_read = true;
  fmode_write = true;
  fmode_lseek = true;
  fmode_pread = true;
  fmode_pwrite = true;
  fmode_can_read = true;
  fmode_can_write = true;
  fmode_stream = false;
  fmode_unsigned_offset = false;
  fmode_buf_wasync = false;
}

abbrev file_at : ℕ → File
file_at p = record {
  f_mode = every_mode;
  f_pos = pos p;
  f_version = 0;
  o_largefile = true;
  o_append = false;
}

abbrev hundred_bytes : Inode
hundred_bytes = record { i_size = pos 100; s_maxbytes = pos 1000 }

-- 50 forward, 2000 from the start, 200 back, 10 past the end
abbrev seeks : List (ℤ × ℕ)
seeks = (pos 50, 1) ∷ (pos 2000, 0) ∷ (negsuc 199, 1) ∷ (pos 10, 2) ∷ []

after_seeks-IsWithin_example : IsWithin (pos 1000) (after_seeks hundred_bytes seeks (file_at 7))
after_seeks-IsWithin_example =
    after_seeks-IsWithin hundred_bytes seeks (file_at 7) (refl, refl, refl)

abbrev task : Task
task = record {
  address = 10;
  signal = 1;
  group_leader = 10;
  total_vm = none;
  cred = record {
    uid = 1000;
    gid = 1000;
    suid = 1000;
    sgid = 1000;
    euid = 1000;
    egid = 1000;
    fsuid = 1000;
    fsgid = 1000;
    user = 1000;
    ucounts = 1000;
    user_ns = 0;
  };
}

abbrev limit_host : Host
limit_host = record {
  capable = λ c. false;
  security_task_setrlimit = λ t r n. pos 0;
  sysctl_nr_open = 1024;
  posix_timers = true;
}

abbrev unlimited : Rlimit
unlimited = record { rlim_cur = rlim_infinity; rlim_max = rlim_infinity }

abbrev machine : Machine
machine = record { rlim = λ s r. unlimited; cpu_timers = [] }

abbrev fifty : Rlimit
fifty = record { rlim_cur = 50; rlim_max = 80 }

limited : Machine
limited = (do_prlimit limit_host task rlimit_fsize (some fifty) machine).1

limit_set : (do_prlimit limit_host task rlimit_fsize (some fifty) machine).0 ≡ ok unlimited
unfolding do_prlimit new_rlim_check raise_check
limit_set = refl

target : Target
target = record {
  machine = limited;
  signal = 1;
  i_size = pos 0;
  s_maxbytes = pos 1000;
  is_swapfile = false;
}

target_machine : target.machine ≡ (do_prlimit limit_host task rlimit_fsize (some fifty) machine).1
unfolding target limited
target_machine = refl

target_signal : target.signal ≡ 1
unfolding target
target_signal = refl

target_size : max_size target (file_at 0) ≡ pos 1000
unfolding target
target_size = refl

shortened : Request
shortened = (generic_write_check_limits target (file_at 0) (pos 30) (request 40 0)).1

write_checked :
    generic_write_check_limits target (file_at 0) (pos 30) (request 40 0)
    ≡ ((generic_write_check_limits target (file_at 0) (pos 30) (request 40 0)).0, shortened)
unfolding shortened
write_checked = refl

-- 40 bytes from 30, under a limit of 50
do_prlimit-generic_write_check_limits_example :
    let ret = (generic_write_check_limits target (file_at 0) (pos 30) (request 40 0)).0 in
    ((ret ≡ pos 0)
      × (30 < 50)
      × (30 < 1000)
      × (30 + to_word shortened.count ≤ 50)
      × (30 + to_word shortened.count ≤ 1000)
      × (shortened.sigxfsz ≡ 0))
    ⊎ ((ret ≡ neg efbig) × (50 ≤ 30) × (shortened.sigxfsz ≡ 1))
    ⊎ ((ret ≡ neg efbig) × (30 < 50) × (1000 ≤ 30) × (shortened.sigxfsz ≡ 0))
do_prlimit-generic_write_check_limits_example =
    do_prlimit-generic_write_check_limits limit_host task fifty unlimited machine target (file_at 0)
      30 40 1000 0 (generic_write_check_limits target (file_at 0) (pos 30) (request 40 0)).0
      shortened limit_set target_machine target_signal (omega arith) (omega arith) (omega arith)
      (omega arith) target_size write_checked
