-- ===== src/Credentials/User/Unprivileged.antt =====
-- What a process without CAP_SETUID can make of its user ids.
use so2_202003745_vd.Base.{
  ℕ, ◌≡◌, ◌⊎◌, true, false, List, [], ◌∷◌, pos, enter, arith, cap_setuid, ok,
}
use so2_202003745_vd.Task.{Cred}
use so2_202003745_vd.Credentials.{Process, Host, given}
use so2_202003745_vd.Credentials.User.{
  finish, sys_setreuid, sys_setuid, sys_setresuid, sys_setfsuid, setresuid_checks, setreuid_checks,
}
use so2_202003745_vd.Credentials.User.Laws.{
  setresuid_checks-state, setreuid_checks-state, setreuid_apply-ids, setresuid_apply-ids,
}

-- `id` is the real, the effective or the saved user id.
abbrev pub Among : Cred → ℕ → Type 0
Among old id = (id ≡ old.uid) ⊎ ((id ≡ old.euid) ⊎ (id ≡ old.suid))

-- The three ids are among the three old ones, and the id for files is among these or as it was.
abbrev pub NoGain : Cred → Cred → Type 0
NoGain old new =
    Among old new.uid
    × Among old new.euid
    × Among old new.suid
    × (Among old new.fsuid ⊎ (new.fsuid ≡ old.fsuid))
    × (new.user_ns ≡ old.user_ns)

pub NoGain-refl : (c : Cred) → NoGain c c
NoGain-refl c = ground arith

pub NoGain-trans : (a b c : Cred) → NoGain a b → NoGain b c → NoGain a c
NoGain-trans a b c p q = ground arith

-- An id that passed the checks of `setreuid` without the capability is one of the old ones.
setreuid_checks-Among :
    (h : Host) (ruid euid kruid keuid : ℕ) (p : Process)
    → h.ns_capable_setid p.cred.user_ns cap_setuid ≡ false
    → (setreuid_checks h p.cred ruid euid kruid keuid p).0 ≡ ok tt
    → (given ruid ≡ true → Among p.cred kruid) × (given euid ≡ true → Among p.cred keuid)
unfolding setreuid_checks
setreuid_checks-Among h ruid euid kruid keuid p c e = (λ g. ground arith, λ g. ground arith)

setresuid_checks-Among :
    (h : Host) (ruid euid suid kruid keuid ksuid : ℕ) (p : Process)
    → h.ns_capable_setid p.cred.user_ns cap_setuid ≡ false
    → (setresuid_checks h p.cred ruid euid suid kruid keuid ksuid p).0 ≡ ok tt
    → (given ruid ≡ true → Among p.cred kruid)
      × (given euid ≡ true → Among p.cred keuid)
      × (given suid ≡ true → Among p.cred ksuid)
unfolding setresuid_checks
setresuid_checks-Among h ruid euid suid kruid keuid ksuid p c e =
    (λ g. ground arith, λ g. ground arith, λ g. ground arith)

module _ (h : Host) (p : Process) (c : h.ns_capable_setid p.cred.user_ns cap_setuid ≡ false) where
  pub setuid-NoGain : (uid : ℕ) → NoGain p.cred (enter (sys_setuid h uid) p).1.cred
  unfolding sys_setuid finish
  setuid-NoGain uid = ground arith

  pub setreuid-NoGain : (ruid euid : ℕ) → NoGain p.cred (enter (sys_setreuid h ruid euid) p).1.cred
  unfolding sys_setreuid
  setreuid-NoGain ruid euid =
      let kruid = h.make_kuid p.cred.user_ns ruid in
      let keuid = h.make_kuid p.cred.user_ns euid in
      ground (
        arith,
        setreuid_checks-state h p.cred ruid euid kruid keuid p,
        setreuid_checks-Among h ruid euid kruid keuid p c,
        setreuid_apply-ids h ruid euid kruid keuid p,
      )

  pub setresuid-NoGain :
      (ruid euid suid : ℕ) → NoGain p.cred (enter (sys_setresuid h ruid euid suid) p).1.cred
  unfolding sys_setresuid
  setresuid-NoGain ruid euid suid =
      let kruid = h.make_kuid p.cred.user_ns ruid in
      let keuid = h.make_kuid p.cred.user_ns euid in
      let ksuid = h.make_kuid p.cred.user_ns suid in
      ground (
        arith,
        setresuid_checks-state h p.cred ruid euid suid kruid keuid ksuid p,
        setresuid_checks-Among h ruid euid suid kruid keuid ksuid p c,
        setresuid_apply-ids h ruid euid suid kruid keuid ksuid p,
      )

  pub setfsuid-NoGain : (uid : ℕ) → NoGain p.cred (enter (sys_setfsuid h uid) p).1.cred
  unfolding sys_setfsuid
  setfsuid-NoGain uid = ground arith

-- One system call on user ids.
pub data Request : Type 0 where
  setuid setfsuid : ℕ → Request
  setreuid : ℕ → ℕ → Request
  setresuid : ℕ → ℕ → ℕ → Request

unfoldable pub serve : Host → Request → Process → Process
serve h (setuid uid) p = (enter (sys_setuid h uid) p).1
serve h (setfsuid uid) p = (enter (sys_setfsuid h uid) p).1
serve h (setreuid ruid euid) p = (enter (sys_setreuid h ruid euid) p).1
serve h (setresuid ruid euid suid) p = (enter (sys_setresuid h ruid euid suid) p).1

unfoldable pub run : Host → List Request → Process → Process
run h [] p = p
run h (r ∷ rs) p = run h rs (serve h r p)

serve-NoGain :
    (h : Host) (r : Request) (p : Process)
    → h.ns_capable_setid p.cred.user_ns cap_setuid ≡ false
    → NoGain p.cred (serve h r p).cred
unfolding serve
serve-NoGain h (setuid uid) p c = setuid-NoGain h p c uid
serve-NoGain h (setfsuid uid) p c = setfsuid-NoGain h p c uid
serve-NoGain h (setreuid ruid euid) p c = setreuid-NoGain h p c ruid euid
serve-NoGain h (setresuid ruid euid suid) p c = setresuid-NoGain h p c ruid euid suid

-- Without CAP_SETUID in its namespace, no sequence of `set*uid` calls gives a process a user id that was not
-- its real, effective or saved one at the start; only the id for files may also stay as it was.
pub run-NoGain :
    (h : Host) (rs : List Request) (p : Process)
    → h.ns_capable_setid p.cred.user_ns cap_setuid ≡ false
    → NoGain p.cred (run h rs p).cred
unfolding run
run-NoGain h [] p c = NoGain-refl p.cred
run-NoGain h (r ∷ rs) p c =
    let step = serve-NoGain h r p c in
    NoGain-trans p.cred (serve h r p).cred (run h rs (serve h r p)).cred step
      (run-NoGain h rs (serve h r p) (rw step.4 c))

-- All four ids are `id`.
abbrev pub IsOnly : ℕ → Cred → Type 0
IsOnly id c = (c.uid ≡ id) × (c.euid ≡ id) × (c.suid ≡ id) × (c.fsuid ≡ id)

setuid-IsOnly :
    (h : Host) (uid : ℕ) (p : Process)
    → h.ns_capable_setid p.cred.user_ns cap_setuid ≡ true
    → (enter (sys_setuid h uid) p).0 ≡ pos 0
    → let p' = (enter (sys_setuid h uid) p).1 in
      IsOnly (h.make_kuid p.cred.user_ns uid) p'.cred × (p'.cred.user_ns ≡ p.cred.user_ns)
unfolding sys_setuid finish
setuid-IsOnly h uid p c e = ground arith

-- A privileged process that has called `setuid` with success, and then has no CAP_SETUID in its
-- namespace, has no user id but the one it set after any sequence of `setuid`, `setreuid`, `setresuid`
-- and `setfsuid` calls that it makes without that capability.
pub setuid_drops_for_good :
    (h : Host) (uid : ℕ) (rs : List Request) (p : Process)
    → h.ns_capable_setid p.cred.user_ns cap_setuid ≡ true
    → (enter (sys_setuid h uid) p).0 ≡ pos 0
    → (later : Host) → later.ns_capable_setid p.cred.user_ns cap_setuid ≡ false
    → IsOnly (h.make_kuid p.cred.user_ns uid) (run later rs (enter (sys_setuid h uid) p).1).cred
setuid_drops_for_good h uid rs p c ok' later lost =
    let all = setuid-IsOnly h uid p c ok' in
    ground (arith, run-NoGain later rs (enter (sys_setuid h uid) p).1 (rw all.1 lost), all)
