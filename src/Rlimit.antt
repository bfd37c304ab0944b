-- ===== src/Rlimit.antt =====
-- Resource limits, Kernel/kernel/sys.c: `do_prlimit`, through which the memory limits of
-- Kernel/kernel/fase3/syscall3.c are applied, and the system calls around it.
pub mod Laws
pub mod Order
pub mod Syscalls
pub mod Roundtrip
pub mod Permission
use so2_202003745_vd.Base.{
  ℕ, ◌-◌, Option, none, some, Bool, true, false, ◌&&◌, ◌||◌, not, List, ◌∷◌, ℤ, pos, neg, ltb, leb,
  ◌==◌, if◌then◌else◌, is_zero, Call, ok, err, ◌>>=◌, ◌>>◌, pure, return_if, check, gets, modify,
  eperm, einval, cap_sys_resource, word,
}
use so2_202003745_vd.Task.{Task, Cred}

abbrev pub rlim_nlimits : ℕ
rlim_nlimits = 16

abbrev pub rlimit_cpu : ℕ
rlimit_cpu = 0

abbrev pub rlimit_nofile : ℕ
rlimit_nofile = 7

abbrev pub rlimit_as : ℕ
rlimit_as = 9

-- `RLIM_INFINITY`, all ones in an unsigned long
abbrev pub rlim_infinity : ℕ
rlim_infinity = word - 1

pub record Rlimit : Type 0 where
  pub rlim_cur : ℕ
  pub rlim_max : ℕ

-- `signal->rlim[resource]` of every signal struct, and the calls made of `update_rlimit_cpu`
-- (group leader and seconds), the latest first.
pub record Machine : Type 0 where
  pub rlim : ℕ → ℕ → Rlimit
  pub cpu_timers : List (ℕ × ℕ)

-- What `do_prlimit` takes from the rest of the kernel.
pub record Host : Type 0 where
  pub capable : ℕ → Bool
  pub security_task_setrlimit : Task → ℕ → Rlimit → ℤ
  pub sysctl_nr_open : ℕ
  -- `IS_ENABLED(CONFIG_POSIX_TIMERS)`
  pub posix_timers : Bool

-- `*rlim = *new_rlim` at `tsk->signal->rlim + resource`
abbrev pub store : ℕ → ℕ → Rlimit → Machine → Machine
store signal resource new m = record m {
  rlim = λ s r. if (s == signal) && (r == resource) then new else m.rlim s r;
}

-- the tests on `new_rlim` that need no lock
unfoldable pub new_rlim_check : Host → ℕ → Option Rlimit → ℤ
new_rlim_check host resource none = pos 0
new_rlim_check host resource (some new) =
    if ltb new.rlim_max new.rlim_cur
    then neg einval
    else if (resource == rlimit_nofile) && ltb host.sysctl_nr_open new.rlim_max
    then neg eperm
    else pos 0

-- the capability and the security hook, under `task_lock`
unfoldable pub raise_check : Host → Task → ℕ → Rlimit → Option Rlimit → ℤ
raise_check host tsk resource rlim none = pos 0
raise_check host tsk resource rlim (some new) =
    if ltb rlim.rlim_max new.rlim_max && not (host.capable cap_sys_resource)
    then neg eperm
    else host.security_task_setrlimit tsk resource new

abbrev pub write_rlim : Task → ℕ → Option Rlimit → Machine → Machine
write_rlim tsk resource none m = m
write_rlim tsk resource (some new) m = store tsk.signal resource new m

-- the RLIMIT_CPU handling after the lock
abbrev pub arm_cpu_timer : Host → Task → ℕ → Option Rlimit → Machine → Machine
arm_cpu_timer host tsk resource none m = m
arm_cpu_timer host tsk resource (some new) m =
    if (resource == rlimit_cpu) && not (new.rlim_cur == rlim_infinity) && host.posix_timers
    then record m { cpu_timers = (tsk.group_leader, new.rlim_cur) ∷ m.cpu_timers }
    else m

-- `do_prlimit`: `ok old` is the return of 0 with `*old_rlim = old`. `array_index_nospec` leaves
-- an index in range alone.
unfoldable pub do_prlimit : Host → Task → ℕ → Option Rlimit → Call Machine Rlimit
unfolding new_rlim_check raise_check
do_prlimit host tsk resource new_rlim = do
  return_if (leb rlim_nlimits resource) (neg einval)
  check (new_rlim_check host resource new_rlim)
  rlim ← gets (λ m. m.rlim tsk.signal resource)
  check (raise_check host tsk resource rlim new_rlim)
  modify (write_rlim tsk resource new_rlim)
  modify (arm_cpu_timer host tsk resource new_rlim)
  pure rlim
