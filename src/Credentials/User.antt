-- ===== src/Credentials/User.antt =====
-- The system calls on user ids.
pub mod Laws
pub mod Unprivileged
use so2_202003745_vd.Base.{
  ℕ, Option, none, some, Bool, true, false, ◌&&◌, ◌||◌, not, ℤ, pos, neg, ◌==◌, is_neg, is_zero,
  if◌then◌else◌, Result, Call, ok, err, ◌>>=◌, ◌>>◌, pure, gets, modify, return_if, check_neg,
  enter, eperm, enomem, einval, efault, cap_setuid,
}
use so2_202003745_vd.Task.{Cred}
use so2_202003745_vd.Credentials.{
  Process, Host, given, setid_id, setid_re, setid_res, setid_fs, set_user, account,
  flag_nproc_exceeded, commit_creds,
}

-- the tail that the three calls share: the security hook, the accounting, the commit
unfoldable pub finish : Host → Cred → Cred → ℕ → Call Process ℤ
unfolding account flag_nproc_exceeded
finish h new old flag = do
  check_neg (h.security_task_fix_setuid new old flag)
  new' ← account h new
  flag_nproc_exceeded h new'
  commit_creds new'

-- The checks of `__sys_setreuid`: the ids are valid, and each one is permitted.
unfoldable pub setreuid_checks : Host → Cred → ℕ → ℕ → ℕ → ℕ → Call Process (Unit {0})
setreuid_checks h old ruid euid kruid keuid = do
  return_if (given ruid && not (h.uid_valid kruid)) (neg einval)
  return_if (given euid && not (h.uid_valid keuid)) (neg einval)
  return_if (not h.prepare_creds) (neg enomem)
  return_if
      (given ruid
        && (not (old.uid == kruid)
            && (not (old.euid == kruid) && not (h.ns_capable_setid old.user_ns cap_setuid))))
      (neg eperm)
  return_if
      (given euid
        && (not (old.uid == keuid)
            && (not (old.euid == keuid)
                && (not (old.suid == keuid) && not (h.ns_capable_setid old.user_ns cap_setuid)))))
      (neg eperm)

-- The rest of `__sys_setreuid`: the new ids are built and committed.
unfoldable pub setreuid_apply : Host → Cred → ℕ → ℕ → ℕ → ℕ → Call Process ℤ
unfolding set_user
setreuid_apply h old ruid euid kruid keuid = do
  new ← pure (record old {
    uid = if given ruid then kruid else old.uid;
    euid = if given euid then keuid else old.euid;
  })
  new' ← (if not (new.uid == old.uid) then set_user h new else pure new)
  new'' ← pure (record new' {
    suid = if given ruid || (given euid && not (keuid == old.uid)) then new'.euid else new'.suid;
    fsuid = new'.euid;
  })
  finish h new'' old setid_re

-- `__sys_setreuid`
unfoldable pub sys_setreuid : Host → ℕ → ℕ → Call Process ℤ
sys_setreuid h ruid euid = do
  old ← gets (λ p. p.cred)
  kruid ← pure (h.make_kuid old.user_ns ruid)
  keuid ← pure (h.make_kuid old.user_ns euid)
  setreuid_checks h old ruid euid kruid keuid
  setreuid_apply h old ruid euid kruid keuid

-- `__sys_setuid`
unfoldable pub sys_setuid : Host → ℕ → Call Process ℤ
unfolding set_user
sys_setuid h uid = do
  old ← gets (λ p. p.cred)
  kuid ← pure (h.make_kuid old.user_ns uid)
  return_if (not (h.uid_valid kuid)) (neg einval)
  return_if (not h.prepare_creds) (neg enomem)
  capable ← pure (h.ns_capable_setid old.user_ns cap_setuid)
  return_if (not capable && (not (kuid == old.uid) && not (kuid == old.suid))) (neg eperm)
  new ← pure (if capable then record old { uid = kuid; suid = kuid } else old)
  new' ← (if capable && not (kuid == old.uid) then set_user h new else pure new)
  finish h (record new' { euid = kuid; fsuid = kuid }) old setid_id

-- Whether an id that is given is none of the process's three.
abbrev pub is_new_uid : Cred → ℕ → ℕ → Bool
is_new_uid old id kid =
    given id && (not (kid == old.uid) && (not (kid == old.euid) && not (kid == old.suid)))

-- The checks of `__sys_setresuid`: the ids are valid, the call is no no-op, and it is permitted.
unfoldable pub setresuid_checks : Host → Cred → ℕ → ℕ → ℕ → ℕ → ℕ → ℕ → Call Process (Unit {0})
setresuid_checks h old ruid euid suid kruid keuid ksuid = do
  return_if (given ruid && not (h.uid_valid kruid)) (neg einval)
  return_if (given euid && not (h.uid_valid keuid)) (neg einval)
  return_if (given suid && not (h.uid_valid ksuid)) (neg einval)
  return_if
      ((not (given ruid) || (kruid == old.uid))
        && ((not (given euid) || ((keuid == old.euid) && (keuid == old.fsuid)))
            && (not (given suid) || (ksuid == old.suid))))
      (pos 0)
  return_if
      ((is_new_uid old ruid kruid || (is_new_uid old euid keuid || is_new_uid old suid ksuid))
        && not (h.ns_capable_setid old.user_ns cap_setuid))
      (neg eperm)
  return_if (not h.prepare_creds) (neg enomem)

-- The rest of `__sys_setresuid`: the new ids are built and committed.
unfoldable pub setresuid_apply : Host → Cred → ℕ → ℕ → ℕ → ℕ → ℕ → ℕ → Call Process ℤ
unfolding set_user
setresuid_apply h old ruid euid suid kruid keuid ksuid = do
  new ← pure (if given ruid then record old { uid = kruid } else old)
  new' ← (if given ruid && not (kruid == old.uid) then set_user h new else pure new)
  new'' ← pure (record new' {
    euid = if given euid then keuid else new'.euid;
    suid = if given suid then ksuid else new'.suid;
    fsuid = if given euid then keuid else new'.euid;
  })
  finish h new'' old setid_res

-- `__sys_setresuid`
unfoldable pub sys_setresuid : Host → ℕ → ℕ → ℕ → Call Process ℤ
sys_setresuid h ruid euid suid = do
  old ← gets (λ p. p.cred)
  kruid ← pure (h.make_kuid old.user_ns ruid)
  keuid ← pure (h.make_kuid old.user_ns euid)
  ksuid ← pure (h.make_kuid old.user_ns suid)
  setresuid_checks h old ruid euid suid kruid keuid ksuid
  setresuid_apply h old ruid euid suid kruid keuid ksuid

-- `__sys_setfsuid`
unfoldable pub sys_setfsuid : Host → ℕ → Call Process ℤ
sys_setfsuid h uid = do
  old ← gets (λ p. p.cred)
  old_fsuid ← pure (pos (h.from_kuid_munged old.user_ns old.fsuid))
  kuid ← pure (h.make_kuid old.user_ns uid)
  return_if (not (h.uid_valid kuid)) old_fsuid
  return_if (not h.prepare_creds) old_fsuid
  return_if
      (not (
        (kuid == old.uid)
        || ((kuid == old.euid)
            || ((kuid == old.suid)
                || ((kuid == old.fsuid) || h.ns_capable_setid old.user_ns cap_setuid)))))
      old_fsuid
  return_if (kuid == old.fsuid) old_fsuid
  new ← pure (record old { fsuid = kuid })
  return_if (not (is_zero (h.security_task_fix_setuid new old setid_fs))) old_fsuid
  commit_creds new
  pure old_fsuid

-- What `getresuid` has written: a write that faults ends the call.
pub record ThreeIds : Type 0 where
  pub real : Option ℕ
  pub effective : Option ℕ
  pub saved : Option ℕ

-- `getresuid`; an argument is the result of `put_user` through that pointer
unfoldable pub getresuid : Host → Cred → ℤ → ℤ → ℤ → Call ThreeIds ℤ
getresuid h cred ruidp euidp suidp = do
  return_if (not (is_zero ruidp)) ruidp
  modify (λ w. record w { real = some (h.from_kuid_munged cred.user_ns cred.uid) })
  return_if (not (is_zero euidp)) euidp
  modify (λ w. record w { effective = some (h.from_kuid_munged cred.user_ns cred.euid) })
  return_if (not (is_zero suidp)) suidp
  modify (λ w. record w { saved = some (h.from_kuid_munged cred.user_ns cred.suid) })
  pure suidp
