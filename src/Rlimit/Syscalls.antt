-- ===== src/Rlimit/Syscalls.antt =====
-- The system calls on resource limits, Kernel/kernel/sys.c. A pointer into user space is what a
-- copy through it gives: `none` for a read that faults, `false` for a write that faults. `ok v` is
-- a return of 0 that has written `v` to user space.
use so2_202003745_vd.Base.{
  ℕ, ◌+◌, ◌^◌, ◌-◌, Option, none, some, Bool, true, false, ◌&&◌, not, ℤ, pos, neg, ltb, leb, ◌==◌,
  if◌then◌else◌, is_zero, Call, err, ◌>>=◌, ◌>>◌, pure, return_if, non_null, check, gets, eperm,
  esrch, efault, einval, cap_sys_resource,
}
use so2_202003745_vd.Task.{Task, Cred}
use so2_202003745_vd.Rlimit.{Rlimit, Machine, Host, do_prlimit, rlim_nlimits, rlim_infinity}

-- `getrlimit`
unfoldable pub getrlimit : Host → Task → ℕ → Bool → Call Machine Rlimit
getrlimit host current resource writable = do
  value ← do_prlimit host current resource none
  return_if (not writable) (neg efault)
  pure value

-- `setrlimit`
unfoldable pub setrlimit : Host → Task → ℕ → Option Rlimit → Call Machine Rlimit
setrlimit host current resource rlim = do
  new_rlim ← non_null rlim (neg efault)
  do_prlimit host current resource (some new_rlim)

-- `COMPAT_RLIM_INFINITY`, all ones in 32 bits
abbrev pub compat_rlim_infinity : ℕ
compat_rlim_infinity = 2 ^ 32 - 1

-- `struct compat_rlimit`
pub record CompatRlimit : Type 0 where
  pub rlim_cur : ℕ
  pub rlim_max : ℕ

abbrev pub widen : ℕ → ℕ
widen x = if x == compat_rlim_infinity then rlim_infinity else x

abbrev pub narrow : ℕ → ℕ
narrow x = if ltb compat_rlim_infinity x then compat_rlim_infinity else x

-- the 32-bit `setrlimit`
unfoldable pub compat_setrlimit : Host → Task → ℕ → Option CompatRlimit → Call Machine Rlimit
compat_setrlimit host current resource rlim = do
  r32 ← non_null rlim (neg efault)
  do_prlimit host current resource
      (some (record { rlim_cur = widen r32.rlim_cur; rlim_max = widen r32.rlim_max }))

-- the 32-bit `getrlimit`
unfoldable pub compat_getrlimit : Host → Task → ℕ → Bool → Call Machine CompatRlimit
compat_getrlimit host current resource writable = do
  r ← do_prlimit host current resource none
  return_if (not writable) (neg efault)
  pure (record { rlim_cur = narrow r.rlim_cur; rlim_max = narrow r.rlim_max })

abbrev pub clamp31 : ℕ → ℕ
clamp31 x = if ltb 0x7fff_ffff x then 0x7fff_ffff else x

abbrev pub clamp31_rlimit : Rlimit → Rlimit
clamp31_rlimit x = record { rlim_cur = clamp31 x.rlim_cur; rlim_max = clamp31 x.rlim_max }

-- `old_getrlimit`
unfoldable pub old_getrlimit : Task → ℕ → Bool → Call Machine Rlimit
old_getrlimit current resource writable = do
  return_if (leb rlim_nlimits resource) (neg einval)
  x ← gets (λ m. m.rlim current.signal resource)
  return_if (not writable) (neg efault)
  pure (clamp31_rlimit x)

-- the 32-bit `old_getrlimit`, which writes the two fields one by one
unfoldable pub compat_old_getrlimit : Task → ℕ → Bool → Bool → Call Machine Rlimit
compat_old_getrlimit current resource writable_cur writable_max = do
  return_if (leb rlim_nlimits resource) (neg einval)
  r ← gets (λ m. m.rlim current.signal resource)
  return_if (not (writable_cur && writable_max)) (neg efault)
  pure (clamp31_rlimit r)

-- `struct rlimit64`
pub record Rlimit64 : Type 0 where
  pub rlim_cur : ℕ
  pub rlim_max : ℕ

-- `RLIM64_INFINITY`
abbrev pub rlim64_infinity : ℕ
rlim64_infinity = 2 ^ 64 - 1

-- on a machine of 64-bit longs
abbrev pub rlim64_is_infinity : ℕ → Bool
rlim64_is_infinity rlim64 = rlim64 == rlim64_infinity

unfoldable pub rlim_to_rlim64 : Rlimit → Rlimit64
rlim_to_rlim64 rlim = record {
  rlim_cur = if rlim.rlim_cur == rlim_infinity then rlim64_infinity else rlim.rlim_cur;
  rlim_max = if rlim.rlim_max == rlim_infinity then rlim64_infinity else rlim.rlim_max;
}

unfoldable pub rlim64_to_rlim : Rlimit64 → Rlimit
rlim64_to_rlim rlim64 = record {
  rlim_cur = if rlim64_is_infinity rlim64.rlim_cur then rlim_infinity else rlim64.rlim_cur;
  rlim_max = if rlim64_is_infinity rlim64.rlim_max then rlim_infinity else rlim64.rlim_max;
}

-- The caller, and what the permission check takes from the rest of the kernel.
pub record Caller : Type 0 where
  pub current : Task
  pub find_task_by_vpid : ℤ → Option Task
  pub ns_capable : ℕ → ℕ → Bool
  pub security_task_prlimit : Cred → Cred → ℕ → ℤ

abbrev pub id_match : Cred → Cred → Bool
id_match cred tcred =
    (cred.uid == tcred.euid)
    && ((cred.uid == tcred.suid)
        && ((cred.uid == tcred.uid)
            && ((cred.gid == tcred.egid) && ((cred.gid == tcred.sgid) && (cred.gid == tcred.gid)))))

unfoldable pub check_prlimit_permission : Caller → Task → ℕ → ℤ
check_prlimit_permission caller task flags =
    if caller.current.address == task.address
    then pos 0
    else if not (id_match caller.current.cred task.cred)
        && not (caller.ns_capable task.cred.user_ns cap_sys_resource)
    then neg eperm
    else caller.security_task_prlimit caller.current.cred task.cred flags

-- the copy of `new_rlim`, if the pointer is not NULL
unfoldable pub read_new : Option (Option Rlimit64) → Call Machine (Option Rlimit)
read_new none = pure none
read_new (some none) = λ m. (err (neg efault), m)
read_new (some (some new64)) = pure (some (rlim64_to_rlim new64))

-- `LSM_PRLIMIT_READ` is 1 and `LSM_PRLIMIT_WRITE` is 2
abbrev pub check_flags : Option (Option Rlimit64) → Option Bool → ℕ
check_flags new_rlim old_rlim =
    elim old_rlim [ none ↦ 0 | some _ ↦ 1 ] + elim new_rlim [ none ↦ 0 | some _ ↦ 2 ]

-- the copy to `old_rlim`, if the pointer is not NULL
unfoldable pub write_old : Option Bool → Rlimit → Call Machine (Option Rlimit64)
write_old none old = pure none
write_old (some true) old = pure (some (rlim_to_rlim64 old))
write_old (some false) old = λ m. (err (neg efault), m)

abbrev pub target : Caller → ℤ → Option Task
target caller pid = if is_zero pid then some caller.current else caller.find_task_by_vpid pid

-- `prlimit64`
unfoldable pub prlimit64 :
    Host → Caller → ℤ → ℕ → Option (Option Rlimit64) → Option Bool → Call Machine (Option Rlimit64)
unfolding read_new check_prlimit_permission write_old
prlimit64 host caller pid resource new_rlim old_rlim = do
  new ← read_new new_rlim
  tsk ← non_null (target caller pid) (neg esrch)
  check (check_prlimit_permission caller tsk (check_flags new_rlim old_rlim))
  old ← do_prlimit host tsk resource new
  write_old old_rlim old
