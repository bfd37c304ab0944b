-- ===== src/Credentials/Group.antt =====
-- The system calls on group ids.
pub mod Laws
pub mod Unprivileged
use so2_202003745_vd.Base.{
  ℕ, Option, none, some, Bool, true, false, ◌&&◌, ◌||◌, not, ℤ, pos, neg, ◌==◌, is_neg, is_zero,
  if◌then◌else◌, Result, Call, ok, err, ◌>>=◌, ◌>>◌, pure, gets, modify, return_if, check_neg,
  enter, eperm, enomem, einval, efault, cap_setgid,
}
use so2_202003745_vd.Task.{Cred}
use so2_202003745_vd.Credentials.{
  Process, Host, given, setid_id, setid_re, setid_res, setid_fs, commit_creds,
}

-- The tests of `__sys_setregid` on the effective group.
abbrev pub may_be_egid : Host → Cred → ℕ → Bool
may_be_egid h old kegid =
    (old.gid == kegid)
    || ((old.egid == kegid) || ((old.sgid == kegid) || h.ns_capable_setid old.user_ns cap_setgid))

-- The checks of `__sys_setregid`: the ids are valid, and each one is permitted.
unfoldable pub setregid_checks : Host → Cred → ℕ → ℕ → ℕ → ℕ → Call Process (Unit {0})
setregid_checks h old rgid egid krgid kegid = do
  return_if (given rgid && not (h.gid_valid krgid)) (neg einval)
  return_if (given egid && not (h.gid_valid kegid)) (neg einval)
  return_if (not h.prepare_creds) (neg enomem)
  return_if
      (given rgid
        && not (
            (old.gid == krgid)
            || ((old.egid == krgid) || h.ns_capable_setid old.user_ns cap_setgid)))
      (neg eperm)
  return_if (given egid && not (may_be_egid h old kegid)) (neg eperm)

-- The rest of `__sys_setregid`: the new ids are built and committed.
unfoldable pub setregid_apply : Host → Cred → ℕ → ℕ → ℕ → ℕ → Call Process ℤ
setregid_apply h old rgid egid krgid kegid = do
  new ← pure (record old {
    gid = if given rgid then krgid else old.gid;
    egid = if given egid then kegid else old.egid;
  })
  new' ← pure (record new {
    sgid = if given rgid || (given egid && not (kegid == old.gid)) then new.egid else new.sgid;
    fsgid = new.egid;
  })
  check_neg (h.security_task_fix_setgid new' old setid_re)
  commit_creds new'

-- `__sys_setregid`
unfoldable pub sys_setregid : Host → ℕ → ℕ → Call Process ℤ
sys_setregid h rgid egid = do
  old ← gets (λ p. p.cred)
  krgid ← pure (h.make_kgid old.user_ns rgid)
  kegid ← pure (h.make_kgid old.user_ns egid)
  setregid_checks h old rgid egid krgid kegid
  setregid_apply h old rgid egid krgid kegid

-- `__sys_setgid`
unfoldable pub sys_setgid : Host → ℕ → Call Process ℤ
sys_setgid h gid = do
  old ← gets (λ p. p.cred)
  kgid ← pure (h.make_kgid old.user_ns gid)
  return_if (not (h.gid_valid kgid)) (neg einval)
  return_if (not h.prepare_creds) (neg enomem)
  capable ← pure (h.ns_capable_setid old.user_ns cap_setgid)
  return_if (not capable && not ((kgid == old.gid) || (kgid == old.sgid))) (neg eperm)
  new ← pure (
      if capable
      then record old { gid = kgid; egid = kgid; sgid = kgid; fsgid = kgid }
      else record old { egid = kgid; fsgid = kgid })
  check_neg (h.security_task_fix_setgid new old setid_id)
  commit_creds new

-- Whether an id that is given is none of the process's three.
abbrev pub is_new_gid : Cred → ℕ → ℕ → Bool
is_new_gid old id kid =
    given id && (not (kid == old.gid) && (not (kid == old.egid) && not (kid == old.sgid)))

-- The checks of `__sys_setresgid`: the ids are valid, the call is no no-op, and it is permitted.
unfoldable pub setresgid_checks : Host → Cred → ℕ → ℕ → ℕ → ℕ → ℕ → ℕ → Call Process (Unit {0})
setresgid_checks h old rgid egid sgid krgid kegid ksgid = do
  return_if (given rgid && not (h.gid_valid krgid)) (neg einval)
  return_if (given egid && not (h.gid_valid kegid)) (neg einval)
  return_if (given sgid && not (h.gid_valid ksgid)) (neg einval)
  return_if
      ((not (given rgid) || (krgid == old.gid))
        && ((not (given egid) || ((kegid == old.egid) && (kegid == old.fsgid)))
            && (not (given sgid) || (ksgid == old.sgid))))
      (pos 0)
  return_if
      ((is_new_gid old rgid krgid || (is_new_gid old egid kegid || is_new_gid old sgid ksgid))
        && not (h.ns_capable_setid old.user_ns cap_setgid))
      (neg eperm)
  return_if (not h.prepare_creds) (neg enomem)

-- The rest of `__sys_setresgid`: the new ids are built and committed.
unfoldable pub setresgid_apply : Host → Cred → ℕ → ℕ → ℕ → ℕ → ℕ → ℕ → Call Process ℤ
setresgid_apply h old rgid egid sgid krgid kegid ksgid = do
  new ← pure (record old {
    gid = if given rgid then krgid else old.gid;
    egid = if given egid then kegid else old.egid;
    sgid = if given sgid then ksgid else old.sgid;
    fsgid = if given egid then kegid else old.egid;
  })
  check_neg (h.security_task_fix_setgid new old setid_res)
  commit_creds new

-- `__sys_setresgid`
unfoldable pub sys_setresgid : Host → ℕ → ℕ → ℕ → Call Process ℤ
sys_setresgid h rgid egid sgid = do
  old ← gets (λ p. p.cred)
  krgid ← pure (h.make_kgid old.user_ns rgid)
  kegid ← pure (h.make_kgid old.user_ns egid)
  ksgid ← pure (h.make_kgid old.user_ns sgid)
  setresgid_checks h old rgid egid sgid krgid kegid ksgid
  setresgid_apply h old rgid egid sgid krgid kegid ksgid

-- `__sys_setfsgid`
unfoldable pub sys_setfsgid : Host → ℕ → Call Process ℤ
sys_setfsgid h gid = do
  old ← gets (λ p. p.cred)
  old_fsgid ← pure (pos (h.from_kgid_munged old.user_ns old.fsgid))
  kgid ← pure (h.make_kgid old.user_ns gid)
  return_if (not (h.gid_valid kgid)) old_fsgid
  return_if (not h.prepare_creds) old_fsgid
  return_if
      (not (
        (kgid == old.gid)
        || ((kgid == old.egid)
            || ((kgid == old.sgid)
                || ((kgid == old.fsgid) || h.ns_capable_setid old.user_ns cap_setgid)))))
      old_fsgid
  return_if (kgid == old.fsgid) old_fsgid
  new ← pure (record old { fsgid = kgid })
  return_if (not (is_zero (h.security_task_fix_setgid new old setid_fs))) old_fsgid
  commit_creds new
  pure old_fsgid

-- What `getresgid` has written: a write that faults ends the call.
pub record ThreeIds : Type 0 where
  pub real : Option ℕ
  pub effective : Option ℕ
  pub saved : Option ℕ

-- `getresgid`; an argument is the result of `put_user` through that pointer
unfoldable pub getresgid : Host → Cred → ℤ → ℤ → ℤ → Call ThreeIds ℤ
getresgid h cred rgidp egidp sgidp = do
  return_if (not (is_zero rgidp)) rgidp
  modify (λ w. record w { real = some (h.from_kgid_munged cred.user_ns cred.gid) })
  return_if (not (is_zero egidp)) egidp
  modify (λ w. record w { effective = some (h.from_kgid_munged cred.user_ns cred.egid) })
  return_if (not (is_zero sgidp)) sgidp
  modify (λ w. record w { saved = some (h.from_kgid_munged cred.user_ns cred.sgid) })
  pure sgidp
