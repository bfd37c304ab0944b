-- ===== src/Credentials/Group/Laws.antt =====
-- Errors leave the group ids alone, and no call on groups touches a user id.
use so2_202003745_vd.Base.{
  ℕ, ◌≡◌, ◌≢◌, ◌⊎◌, true, pos, is_neg, enter, arith, not, ◌&&◌, ◌||◌, ◌==◌, if◌then◌else◌,
}
use so2_202003745_vd.Task.{Cred}
use so2_202003745_vd.Credentials.{Process, Host, given}
use so2_202003745_vd.Credentials.Group.{
  sys_setregid, sys_setgid, sys_setresgid, setresgid_checks, setresgid_apply, setregid_checks,
  setregid_apply,
}

-- `setgid` changes nothing unless it returns 0.
pub setgid_atomic :
    (h : Host) (gid : ℕ) (p : Process)
    → (enter (sys_setgid h gid) p).0 ≢ pos 0
    → (enter (sys_setgid h gid) p).1 ≡ p
unfolding sys_setgid
setgid_atomic h gid p n = ground arith

-- The checks of `setregid` change nothing.
pub setregid_checks-state :
    (h : Host) (old : Cred) (rgid egid krgid kegid : ℕ) (p : Process)
    → (setregid_checks h old rgid egid krgid kegid p).1 ≡ p
unfolding setregid_checks
setregid_checks-state h old rgid egid krgid kegid p = ground arith

-- What `setregid` makes of ids that passed the checks: it returns 0 and they are in place, or it
-- returns an error and nothing changed.
pub setregid_apply-ids :
    (h : Host) (rgid egid krgid kegid : ℕ) (p : Process)
    → let (ret, p') = enter (setregid_apply h p.cred rgid egid krgid kegid) p in
      ((ret ≡ pos 0)
        × (p'.cred.gid ≡ (if given rgid then krgid else p.cred.gid))
        × (p'.cred.egid ≡ (if given egid then kegid else p.cred.egid))
        × (p'.cred.sgid ≡ (
            if given rgid || (given egid && not (kegid == p.cred.gid))
            then p'.cred.egid
            else p.cred.sgid))
        × (p'.cred.fsgid ≡ p'.cred.egid)
        × (p'.cred.user_ns ≡ p.cred.user_ns))
      ⊎ ((is_neg ret ≡ true) × (p' ≡ p))
unfolding setregid_apply
setregid_apply-ids h rgid egid krgid kegid p = ground arith

-- `setregid` changes nothing unless it returns 0.
pub setregid_atomic :
    (h : Host) (rgid egid : ℕ) (p : Process)
    → (enter (sys_setregid h rgid egid) p).0 ≢ pos 0
    → (enter (sys_setregid h rgid egid) p).1 ≡ p
unfolding sys_setregid
setregid_atomic h rgid egid p n =
    let krgid = h.make_kgid p.cred.user_ns rgid in
    let kegid = h.make_kgid p.cred.user_ns egid in
    ground (
      arith,
      setregid_checks-state h p.cred rgid egid krgid kegid p,
      setregid_apply-ids h rgid egid krgid kegid p,
    )

-- The checks of `setresgid` change nothing.
pub setresgid_checks-state :
    (h : Host) (old : Cred) (rgid egid sgid krgid kegid ksgid : ℕ) (p : Process)
    → (setresgid_checks h old rgid egid sgid krgid kegid ksgid p).1 ≡ p
unfolding setresgid_checks
setresgid_checks-state h old rgid egid sgid krgid kegid ksgid p = ground arith

-- What `setresgid` makes of ids that passed the checks: it returns 0 and they are in place, or it
-- returns an error and nothing changed.
pub setresgid_apply-ids :
    (h : Host) (rgid egid sgid krgid kegid ksgid : ℕ) (p : Process)
    → let (ret, p') = enter (setresgid_apply h p.cred rgid egid sgid krgid kegid ksgid) p in
      ((ret ≡ pos 0)
        × (p'.cred.gid ≡ (if given rgid then krgid else p.cred.gid))
        × (p'.cred.egid ≡ (if given egid then kegid else p.cred.egid))
        × (p'.cred.sgid ≡ (if given sgid then ksgid else p.cred.sgid))
        × (p'.cred.fsgid ≡ p'.cred.egid)
        × (p'.cred.user_ns ≡ p.cred.user_ns))
      ⊎ ((is_neg ret ≡ true) × (p' ≡ p))
unfolding setresgid_apply
setresgid_apply-ids h rgid egid sgid krgid kegid ksgid p = ground arith

-- `setresgid` changes nothing unless it returns 0.
pub setresgid_atomic :
    (h : Host) (rgid egid sgid : ℕ) (p : Process)
    → (enter (sys_setresgid h rgid egid sgid) p).0 ≢ pos 0
    → (enter (sys_setresgid h rgid egid sgid) p).1 ≡ p
unfolding sys_setresgid
setresgid_atomic h rgid egid sgid p n =
    let krgid = h.make_kgid p.cred.user_ns rgid in
    let kegid = h.make_kgid p.cred.user_ns egid in
    let ksgid = h.make_kgid p.cred.user_ns sgid in
    ground (
      arith,
      setresgid_checks-state h p.cred rgid egid sgid krgid kegid ksgid p,
      setresgid_apply-ids h rgid egid sgid krgid kegid ksgid p,
    )
