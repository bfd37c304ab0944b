-- ===== src/Rlimit/Roundtrip.antt =====
-- What is set through one system call is what another one reads.
use so2_202003745_vd.Base.{ℕ, ◌<◌, ◌≡◌, ◌^◌, true, Option, none, some, ok, arith, ℤ, pos}
use so2_202003745_vd.Task.{Task}
use so2_202003745_vd.Rlimit.{Rlimit, Machine, Host, do_prlimit}
use so2_202003745_vd.Rlimit.Syscalls.{
  CompatRlimit, Rlimit64, compat_setrlimit, compat_getrlimit, rlim_to_rlim64, rlim64_to_rlim,
  Caller, target, prlimit64, check_prlimit_permission,
}

-- A limit that the 32-bit `setrlimit` has set is read back unchanged by the 32-bit `getrlimit`, for
-- every pair of 32-bit values, the infinite one included.
pub compat_getrlimit-setrlimit :
    (host : Host) (current : Task) (resource : ℕ) (r32 : CompatRlimit) (m : Machine) {old : Rlimit}
    → r32.rlim_cur < 2 ^ 32
    → r32.rlim_max < 2 ^ 32
    → (compat_setrlimit host current resource (some r32) m).0 ≡ ok old
    → (compat_getrlimit host current resource true
        (compat_setrlimit host current resource (some r32) m).1).0
      ≡ ok r32
unfolding compat_getrlimit compat_setrlimit do_prlimit
compat_getrlimit-setrlimit host current resource r32 m hc hm h = ground arith

-- Limits convert to 64 bits and back without loss.
pub rlim64_to_rlim-rlim_to_rlim64 : (r : Rlimit) → rlim64_to_rlim (rlim_to_rlim64 r) ≡ r
unfolding rlim64_to_rlim rlim_to_rlim64
rlim64_to_rlim-rlim_to_rlim64 r = ground arith

pub rlim_to_rlim64-rlim64_to_rlim : (r : Rlimit64) → rlim_to_rlim64 (rlim64_to_rlim r) ≡ r
unfolding rlim64_to_rlim rlim_to_rlim64
rlim_to_rlim64-rlim64_to_rlim r = ground arith

-- After a successful `prlimit64` that set a limit, a `prlimit64` on the same process that only
-- reads, is permitted and can write its answer returns the limit that was set.
pub prlimit64-prlimit64 :
    (host : Host) (caller : Caller) (pid : ℤ) (resource : ℕ) (new : Rlimit64) (m : Machine)
    (tsk : Task) {r : Option Rlimit64}
    → target caller pid ≡ some tsk
    → check_prlimit_permission caller tsk 1 ≡ pos 0
    → (prlimit64 host caller pid resource (some (some new)) none m).0 ≡ ok r
    → (prlimit64 host caller pid resource none
        (some true)
        (prlimit64 host caller pid resource (some (some new)) none m).1).0
      ≡ ok (some new)
unfolding prlimit64 do_prlimit
prlimit64-prlimit64 host caller pid resource new m tsk t p h =
    ground (arith, rlim_to_rlim64-rlim64_to_rlim new)
