-- ===== src/Rlimit/Order.antt =====
-- Orders that every call of `do_prlimit` keeps.
use so2_202003745_vd.Base.{ℕ, ◌≤◌, ◌≡◌, false, Option, none, some, arith, cap_sys_resource}
use so2_202003745_vd.Task.{Task}
use so2_202003745_vd.Rlimit.{Rlimit, Machine, Host, do_prlimit}

-- No soft limit is above its hard limit.
abbrev pub IsBounded : Machine → Type 0
IsBounded m = (s r : ℕ) → (m.rlim s r).rlim_cur ≤ (m.rlim s r).rlim_max

-- Whatever `do_prlimit` is asked, no soft limit ends above its hard limit, if none was before.
pub do_prlimit-IsBounded :
    (host : Host) (tsk : Task) (resource : ℕ) (new : Option Rlimit) (m : Machine)
    → IsBounded m
    → IsBounded (do_prlimit host tsk resource new m).1
unfolding do_prlimit
do_prlimit-IsBounded host tsk resource none m b = λ s r. ground (arith, b s r)
do_prlimit-IsBounded host tsk resource (some new) m b = λ s r. ground (arith, b s r)

-- A caller of `do_prlimit` without CAP_SYS_RESOURCE cannot raise a hard limit: after the call every hard limit of
-- every process is at most what it was.
pub do_prlimit_unprivileged :
    (host : Host) (tsk : Task) (resource : ℕ) (new : Option Rlimit) (m : Machine)
    → host.capable cap_sys_resource ≡ false
    → (s r : ℕ) → ((do_prlimit host tsk resource new m).1.rlim s r).rlim_max ≤ (m.rlim s r).rlim_max
unfolding do_prlimit
do_prlimit_unprivileged host tsk resource none m c s r = ground arith
do_prlimit_unprivileged host tsk resource (some new) m c s r = ground arith
