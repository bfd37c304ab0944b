-- ===== src/Rlimit/Permission.antt =====
-- Whose limits a process may change.
use so2_202003745_vd.Base.{ℕ, ◌≡◌, ◌≢◌, Bool, false, Option, none, some, arith, ℤ, cap_sys_resource}
use so2_202003745_vd.Task.{Task}
use so2_202003745_vd.Rlimit.{Machine, Host}
use so2_202003745_vd.Rlimit.Syscalls.{Rlimit64, Caller, target, prlimit64, id_match}

-- A process whose ids do not all match those of another process, and that lacks CAP_SYS_RESOURCE
-- over its namespace, cannot change that process's limits: `prlimit64` leaves all as it was.
pub prlimit64_denied :
    (host : Host) (caller : Caller) (pid : ℤ) (resource : ℕ) (new : Option (Option Rlimit64))
    (old : Option Bool) (m : Machine) (tsk : Task)
    → target caller pid ≡ some tsk
    → caller.current.address ≢ tsk.address
    → id_match caller.current.cred tsk.cred ≡ false
    → caller.ns_capable tsk.cred.user_ns cap_sys_resource ≡ false
    → (prlimit64 host caller pid resource new old m).1 ≡ m
unfolding prlimit64
prlimit64_denied host caller pid resource none old m tsk t other ids cap = ground arith
prlimit64_denied host caller pid resource (some none) old m tsk t other ids cap = ground arith
prlimit64_denied host caller pid resource (some (some n)) old m tsk t other ids cap = ground arith
