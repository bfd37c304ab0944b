-- ===== src/Credentials/User/Laws.antt =====
-- Errors leave the ids alone, and successes keep them in step.
use so2_202003745_vd.Base.{
  ℕ, ◌≡◌, ◌≢◌, ◌⊎◌, true, pos, is_neg, enter, arith, not, ◌&&◌, ◌||◌, ◌==◌, if◌then◌else◌,
}
use so2_202003745_vd.Task.{Cred}
use so2_202003745_vd.Credentials.{Process, Host, given}
use so2_202003745_vd.Credentials.User.{
  finish, sys_setreuid, sys_setuid, sys_setresuid, setresuid_checks, setresuid_apply,
  setreuid_checks, setreuid_apply,
}

-- The checks of `setresuid` change nothing.
pub setresuid_checks-state :
    (h : Host) (old : Cred) (ruid euid suid kruid keuid ksuid : ℕ) (p : Process)
    → (setresuid_checks h old ruid euid suid kruid keuid ksuid p).1 ≡ p
unfolding setresuid_checks
setresuid_checks-state h old ruid euid suid kruid keuid ksuid p = ground arith

-- `setuid` changes nothing unless it returns 0.
pub setuid_atomic :
    (h : Host) (uid : ℕ) (p : Process)
    → (enter (sys_setuid h uid) p).0 ≢ pos 0
    → (enter (sys_setuid h uid) p).1 ≡ p
unfolding sys_setuid finish
setuid_atomic h uid p n = ground arith

-- The checks of `setreuid` change nothing.
pub setreuid_checks-state :
    (h : Host) (old : Cred) (ruid euid kruid keuid : ℕ) (p : Process)
    → (setreuid_checks h old ruid euid kruid keuid p).1 ≡ p
unfolding setreuid_checks
setreuid_checks-state h old ruid euid kruid keuid p = ground arith

-- What `setreuid` makes of ids that passed the checks: it returns 0 and they are in place, or it
-- returns an error and nothing changed.
pub setreuid_apply-ids :
    (h : Host) (ruid euid kruid keuid : ℕ) (p : Process)
    → let (ret, p') = enter (setreuid_apply h p.cred ruid euid kruid keuid) p in
      ((ret ≡ pos 0)
        × (p'.cred.uid ≡ (if given ruid then kruid else p.cred.uid))
        × (p'.cred.euid ≡ (if given euid then keuid else p.cred.euid))
        × (p'.cred.suid ≡ (
            if given ruid || (given euid && not (keuid == p.cred.uid))
            then p'.cred.euid
            else p.cred.suid))
        × (p'.cred.fsuid ≡ p'.cred.euid)
        × (p'.cred.user_ns ≡ p.cred.user_ns))
      ⊎ ((is_neg ret ≡ true) × (p' ≡ p))
unfolding setreuid_apply finish
setreuid_apply-ids h ruid euid kruid keuid p = ground arith

-- The same for `setresuid`.
pub setresuid_apply-ids :
    (h : Host) (ruid euid suid kruid keuid ksuid : ℕ) (p : Process)
    → let (ret, p') = enter (setresuid_apply h p.cred ruid euid suid kruid keuid ksuid) p in
      ((ret ≡ pos 0)
        × (p'.cred.uid ≡ (if given ruid then kruid else p.cred.uid))
        × (p'.cred.euid ≡ (if given euid then keuid else p.cred.euid))
        × (p'.cred.suid ≡ (if given suid then ksuid else p.cred.suid))
        × (p'.cred.fsuid ≡ p'.cred.euid)
        × (p'.cred.user_ns ≡ p.cred.user_ns))
      ⊎ ((is_neg ret ≡ true) × (p' ≡ p))
unfolding setresuid_apply finish
setresuid_apply-ids h ruid euid suid kruid keuid ksuid p = ground arith

-- `setreuid` changes nothing unless it returns 0.
pub setreuid_atomic :
    (h : Host) (ruid euid : ℕ) (p : Process)
    → (enter (sys_setreuid h ruid euid) p).0 ≢ pos 0
    → (enter (sys_setreuid h ruid euid) p).1 ≡ p
unfolding sys_setreuid
setreuid_atomic h ruid euid p n =
    let kruid = h.make_kuid p.cred.user_ns ruid in
    let keuid = h.make_kuid p.cred.user_ns euid in
    ground (
      arith,
      setreuid_checks-state h p.cred ruid euid kruid keuid p,
      setreuid_apply-ids h ruid euid kruid keuid p,
    )

-- `setresuid` changes nothing unless it returns 0.
pub setresuid_atomic :
    (h : Host) (ruid euid suid : ℕ) (p : Process)
    → (enter (sys_setresuid h ruid euid suid) p).0 ≢ pos 0
    → (enter (sys_setresuid h ruid euid suid) p).1 ≡ p
unfolding sys_setresuid
setresuid_atomic h ruid euid suid p n =
    let ns = p.cred.user_ns in
    let kruid = h.make_kuid ns ruid in
    let keuid = h.make_kuid ns euid in
    let ksuid = h.make_kuid ns suid in
    ground (
      arith,
      setresuid_checks-state h p.cred ruid euid suid kruid keuid ksuid p,
      setresuid_apply-ids h ruid euid suid kruid keuid ksuid p,
    )
