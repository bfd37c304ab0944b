-- ===== src/Credentials/Group/Unprivileged.antt =====
-- What a process without CAP_SETGID can make of its group ids.
use so2_202003745_vd.Base.{ℕ, ◌≡◌, ◌⊎◌, true, false, List, [], ◌∷◌, enter, arith, cap_setgid, ok}
use so2_202003745_vd.Task.{Cred}
use so2_202003745_vd.Credentials.{Process, Host, given}
use so2_202003745_vd.Credentials.Group.{
  sys_setregid, sys_setgid, sys_setresgid, sys_setfsgid, setresgid_checks, setregid_checks,
}
use so2_202003745_vd.Credentials.Group.Laws.{
  setresgid_checks-state, setresgid_apply-ids, setregid_checks-state, setregid_apply-ids,
}

-- `id` is the real, the effective or the saved group id.
abbrev pub AmongGroups : Cred → ℕ → Type 0
AmongGroups old id = (id ≡ old.gid) ⊎ ((id ≡ old.egid) ⊎ (id ≡ old.sgid))

-- The three ids are among the three old ones, and the id for files is among these or as it was.
abbrev pub NoGroupGain : Cred → Cred → Type 0
NoGroupGain old new =
    AmongGroups old new.gid
    × AmongGroups old new.egid
    × AmongGroups old new.sgid
    × (AmongGroups old new.fsgid ⊎ (new.fsgid ≡ old.fsgid))
    × (new.user_ns ≡ old.user_ns)

NoGroupGain-refl : (c : Cred) → NoGroupGain c c
NoGroupGain-refl c = ground arith

NoGroupGain-trans : (a b c : Cred) → NoGroupGain a b → NoGroupGain b c → NoGroupGain a c
NoGroupGain-trans a b c p q = ground arith

setregid_checks-AmongGroups :
    (h : Host) (rgid egid krgid kegid : ℕ) (p : Process)
    → h.ns_capable_setid p.cred.user_ns cap_setgid ≡ false
    → (setregid_checks h p.cred rgid egid krgid kegid p).0 ≡ ok tt
    → (given rgid ≡ true → AmongGroups p.cred krgid)
      × (given egid ≡ true → AmongGroups p.cred kegid)
unfolding setregid_checks
setregid_checks-AmongGroups h rgid egid krgid kegid p c e = (λ g. ground arith, λ g. ground arith)

setresgid_checks-AmongGroups :
    (h : Host) (rgid egid sgid krgid kegid ksgid : ℕ) (p : Process)
    → h.ns_capable_setid p.cred.user_ns cap_setgid ≡ false
    → (setresgid_checks h p.cred rgid egid sgid krgid kegid ksgid p).0 ≡ ok tt
    → (given rgid ≡ true → AmongGroups p.cred krgid)
      × (given egid ≡ true → AmongGroups p.cred kegid)
      × (given sgid ≡ true → AmongGroups p.cred ksgid)
unfolding setresgid_checks
setresgid_checks-AmongGroups h rgid egid sgid krgid kegid ksgid p c e =
    (λ g. ground arith, λ g. ground arith, λ g. ground arith)

module _ (h : Host) (p : Process) (c : h.ns_capable_setid p.cred.user_ns cap_setgid ≡ false) where
  pub setgid-NoGroupGain : (gid : ℕ) → NoGroupGain p.cred (enter (sys_setgid h gid) p).1.cred
  unfolding sys_setgid
  setgid-NoGroupGain gid = ground arith

  pub setregid-NoGroupGain :
      (rgid egid : ℕ) → NoGroupGain p.cred (enter (sys_setregid h rgid egid) p).1.cred
  unfolding sys_setregid
  setregid-NoGroupGain rgid egid =
      let krgid = h.make_kgid p.cred.user_ns rgid in
      let kegid = h.make_kgid p.cred.user_ns egid in
      ground (
        arith,
        setregid_checks-state h p.cred rgid egid krgid kegid p,
        setregid_checks-AmongGroups h rgid egid krgid kegid p c,
        setregid_apply-ids h rgid egid krgid kegid p,
      )

  pub setresgid-NoGroupGain :
      (rgid egid sgid : ℕ) → NoGroupGain p.cred (enter (sys_setresgid h rgid egid sgid) p).1.cred
  unfolding sys_setresgid
  setresgid-NoGroupGain rgid egid sgid =
      let krgid = h.make_kgid p.cred.user_ns rgid in
      let kegid = h.make_kgid p.cred.user_ns egid in
      let ksgid = h.make_kgid p.cred.user_ns sgid in
      ground (
        arith,
        setresgid_checks-state h p.cred rgid egid sgid krgid kegid ksgid p,
        setresgid_checks-AmongGroups h rgid egid sgid krgid kegid ksgid p c,
        setresgid_apply-ids h rgid egid sgid krgid kegid ksgid p,
      )

  pub setfsgid-NoGroupGain : (gid : ℕ) → NoGroupGain p.cred (enter (sys_setfsgid h gid) p).1.cred
  unfolding sys_setfsgid
  setfsgid-NoGroupGain gid = ground arith

-- One system call on group ids.
pub data GroupRequest : Type 0 where
  setgid setfsgid : ℕ → GroupRequest
  setregid : ℕ → ℕ → GroupRequest
  setresgid : ℕ → ℕ → ℕ → GroupRequest

unfoldable pub serve : Host → GroupRequest → Process → Process
serve h (setgid gid) p = (enter (sys_setgid h gid) p).1
serve h (setfsgid gid) p = (enter (sys_setfsgid h gid) p).1
serve h (setregid rgid egid) p = (enter (sys_setregid h rgid egid) p).1
serve h (setresgid rgid egid sgid) p = (enter (sys_setresgid h rgid egid sgid) p).1

unfoldable pub run : Host → List GroupRequest → Process → Process
run h [] p = p
run h (r ∷ rs) p = run h rs (serve h r p)

serve-NoGroupGain :
    (h : Host) (r : GroupRequest) (p : Process)
    → h.ns_capable_setid p.cred.user_ns cap_setgid ≡ false
    → NoGroupGain p.cred (serve h r p).cred
unfolding serve
serve-NoGroupGain h (setgid gid) p c = setgid-NoGroupGain h p c gid
serve-NoGroupGain h (setfsgid gid) p c = setfsgid-NoGroupGain h p c gid
serve-NoGroupGain h (setregid rgid egid) p c = setregid-NoGroupGain h p c rgid egid
serve-NoGroupGain h (setresgid rgid egid sgid) p c = setresgid-NoGroupGain h p c rgid egid sgid

-- Without CAP_SETGID in its namespace, no sequence of `set*gid` calls gives a process a group id that was not
-- its real, effective or saved one at the start; only the id for files may also stay as it was.
pub run-NoGroupGain :
    (h : Host) (rs : List GroupRequest) (p : Process)
    → h.ns_capable_setid p.cred.user_ns cap_setgid ≡ false
    → NoGroupGain p.cred (run h rs p).cred
unfolding run
run-NoGroupGain h [] p c = NoGroupGain-refl p.cred
run-NoGroupGain h (r ∷ rs) p c =
    let step = serve-NoGroupGain h r p c in
    NoGroupGain-trans p.cred (serve h r p).cred (run h rs (serve h r p)).cred step
      (run-NoGroupGain h rs (serve h r p) (rw step.4 c))
