-- ===== src/Examples/Limits.antt =====
-- Runs of the system calls on resource limits: a shell, a process of another user, and a host
-- without privileges.
use so2_202003745_vd.Base.{
  ℕ, ◌≡◌, ◌≤◌, refl, [], none, some, false, pos, ◌==ℤ◌, true, if◌then◌else◌, ok, ◌≢◌, ◌⊎◌, ℤ, err,
  is_zero,
}
use so2_202003745_vd.Task.{Cred, Task}
use so2_202003745_vd.Rlimit.{Rlimit, Machine, Host, do_prlimit, rlimit_nofile}
use so2_202003745_vd.Rlimit.Syscalls.{
  Rlimit64, Caller, prlimit64, read_new, write_old, rlim64_to_rlim, check_prlimit_permission,
}
use so2_202003745_vd.Rlimit.Laws.{Accepts, do_prlimit-Accepts}
use so2_202003745_vd.Rlimit.Order.{do_prlimit_unprivileged}
use so2_202003745_vd.Rlimit.Roundtrip.{prlimit64-prlimit64}

abbrev cred_of : ℕ → Cred
cred_of id = record {
  uid = id;
  gid = id;
  suid = id;
  sgid = id;
  euid = id;
  egid = id;
  fsuid = id;
  fsgid = id;
  user = id;
  ucounts = id;
  user_ns = 0;
}

abbrev shell : Task
shell = record {
  address = 10;
  signal = 1;
  group_leader = 10;
  total_vm = some 100;
  cred = cred_of 1000;
}

abbrev daemon : Task
daemon = record {
  address = 20;
  signal = 2;
  group_leader = 20;
  total_vm = some 100;
  cred = cred_of 33;
}

abbrev plain_host : Host
plain_host = record {
  capable = λ c. false;
  security_task_setrlimit = λ t r n. pos 0;
  sysctl_nr_open = 1048576;
  posix_timers = true;
}

abbrev machine : Machine
machine = record { rlim = λ s r. record { rlim_cur = 1024; rlim_max = 4096 }; cpu_timers = [] }

abbrev files : ℕ → Rlimit
files n = record { rlim_cur = n; rlim_max = n }

do_prlimit-Accepts_example :
    let (ret, m') = do_prlimit plain_host shell rlimit_nofile (some (files 2048)) machine in
    (Accepts plain_host shell rlimit_nofile (files 2048) machine
      × (ret ≡ ok (machine.rlim 1 rlimit_nofile))
      × (m'.rlim 1 rlimit_nofile ≡ files 2048)
      × ((s r : ℕ) → (s ≢ 1) ⊎ (r ≢ rlimit_nofile) → m'.rlim s r ≡ machine.rlim s r))
    ⊎ ((¬ Accepts plain_host shell rlimit_nofile (files 2048) machine)
        × (e : ℤ) × (ret ≡ err e)
        × (is_zero e ≡ false)
        × (m' ≡ machine))
do_prlimit-Accepts_example = do_prlimit-Accepts plain_host shell rlimit_nofile (files 2048) machine

do_prlimit_unprivileged_example :
    let m' = (do_prlimit plain_host shell rlimit_nofile (some (files 2048)) machine).1 in
    (m'.rlim 1 rlimit_nofile).rlim_max ≤ 4096
do_prlimit_unprivileged_example =
    do_prlimit_unprivileged plain_host shell rlimit_nofile (some (files 2048)) machine refl 1
      rlimit_nofile

abbrev caller : Caller
caller = record {
  current = shell;
  find_task_by_vpid = λ pid. if pid ==ℤ pos 20 then some daemon else none;
  ns_capable = λ ns c. false;
  security_task_prlimit = λ c t f. pos 0;
}

abbrev wanted : Rlimit64
wanted = record { rlim_cur = 512; rlim_max = 600 }

prlimit64-prlimit64_example :
    (prlimit64 plain_host caller
      (pos 0)
      rlimit_nofile
      none
      (some true)
      (prlimit64 plain_host caller (pos 0) rlimit_nofile (some (some wanted)) none machine).1).0
    ≡ ok (some wanted)
unfolding prlimit64 read_new write_old do_prlimit rlim64_to_rlim check_prlimit_permission
prlimit64-prlimit64_example =
    prlimit64-prlimit64 plain_host caller (pos 0) rlimit_nofile wanted machine shell refl refl refl
