-- ===== src/Rlimit/Laws.antt =====
-- What a call of `do_prlimit` does to the limits.
use so2_202003745_vd.Base.{
  returns_zero, ℕ, ◌≤◌, ◌<◌, ◌≡◌, ◌⊎◌, ◌≢◌, ◌∙◌, ap, inl, inr, is_zero, Result-cases, true, false,
  Option, none, some, ℤ, pos, ok, err, arith, cap_sys_resource,
}
use so2_202003745_vd.Task.{Task}
use so2_202003745_vd.Rlimit.{Rlimit, Machine, Host, do_prlimit, rlim_nlimits, rlimit_nofile}

-- A refused `do_prlimit` leaves every limit and timer as it was.
pub do_prlimit-err :
    (host : Host) (tsk : Task) (resource : ℕ) (new : Option Rlimit) (m : Machine) {e : ℤ}
    → (do_prlimit host tsk resource new m).0 ≡ err e
    → (do_prlimit host tsk resource new m).1 ≡ m
unfolding do_prlimit
do_prlimit-err host tsk resource none m h = ground arith
do_prlimit-err host tsk resource (some new) m h = ground arith

-- A `do_prlimit` that succeeds returns the limit that stood there, sets exactly the entry named
-- to the new limit, and leaves every other entry of every process alone.
pub do_prlimit-ok :
    (host : Host) (tsk : Task) (resource : ℕ) (new : Rlimit) (m : Machine) {old : Rlimit}
    → (do_prlimit host tsk resource (some new) m).0 ≡ ok old
    → let m' = (do_prlimit host tsk resource (some new) m).1 in
      (old ≡ m.rlim tsk.signal resource)
      × (m'.rlim tsk.signal resource ≡ new)
      × ((s r : ℕ) → (s ≢ tsk.signal) ⊎ (r ≢ resource) → m'.rlim s r ≡ m.rlim s r)
unfolding do_prlimit
do_prlimit-ok host tsk resource new m h = (ground arith, ground arith, λ s r d. ground arith)

-- Reading a limit (`new_rlim` is NULL) of an existing resource always succeeds, returns the limit
-- that stands there and changes nothing.
pub do_prlimit_read :
    (host : Host) (tsk : Task) (resource : ℕ) (m : Machine)
    → resource < rlim_nlimits
    → do_prlimit host tsk resource none m ≡ (ok (m.rlim tsk.signal resource), m)
unfolding do_prlimit
do_prlimit_read host tsk resource m h = ground arith

-- What a new limit has to satisfy to be accepted.
abbrev pub Accepts : Host → Task → ℕ → Rlimit → Machine → Type 0
Accepts host tsk resource new m =
    (resource < rlim_nlimits)
    × (new.rlim_cur ≤ new.rlim_max)
    × ((resource ≡ rlimit_nofile) → new.rlim_max ≤ host.sysctl_nr_open)
    × ((new.rlim_max ≤ (m.rlim tsk.signal resource).rlim_max)
        ⊎ (host.capable cap_sys_resource ≡ true))
    × (host.security_task_setrlimit tsk resource new ≡ pos 0)

module _ (host : Host) (tsk : Task) (resource : ℕ) (new : Rlimit) (m : Machine) where
  accepted :
      {old : Rlimit}
      → (do_prlimit host tsk resource (some new) m).0 ≡ ok old
      → Accepts host tsk resource new m
  unfolding do_prlimit
  accepted done = ground arith

  refused_not_Accepts :
      {e : ℤ}
      → (do_prlimit host tsk resource (some new) m).0 ≡ err e
      → ¬ Accepts host tsk resource new m
  unfolding do_prlimit
  refused_not_Accepts refused a = ground arith

  refused_nonzero :
      {e : ℤ} → (do_prlimit host tsk resource (some new) m).0 ≡ err e → is_zero e ≡ false
  unfolding do_prlimit
  refused_nonzero refused = ground arith

-- `do_prlimit` accepts a new limit exactly when the resource exists, the soft limit is at most the
-- hard one, the number of files is within the system's, the hard limit is not raised without
-- CAP_SYS_RESOURCE, and the security module does not object. It then returns the limit that stood there,
-- the new one stands in its place, and every other limit of every process is as before; otherwise it
-- returns an error other than 0 and nothing has changed.
pub do_prlimit-Accepts :
    (host : Host) (tsk : Task) (resource : ℕ) (new : Rlimit) (m : Machine)
    → let (ret, m') = do_prlimit host tsk resource (some new) m in
      ((Accepts host tsk resource new m)
        × (ret ≡ ok (m.rlim tsk.signal resource))
        × (m'.rlim tsk.signal resource ≡ new)
        × ((s r : ℕ) → (s ≢ tsk.signal) ⊎ (r ≢ resource) → m'.rlim s r ≡ m.rlim s r))
      ⊎ ((¬ Accepts host tsk resource new m)
          × (e : ℤ) × (ret ≡ err e)
          × (is_zero e ≡ false)
          × (m' ≡ m))
do_prlimit-Accepts host tsk resource new m =
    elim (Result-cases (do_prlimit host tsk resource (some new) m).0) [
      | inl (old, done) ↦
          let (before, written, others) = do_prlimit-ok host tsk resource new m done in
          inl (accepted host tsk resource new m done, done ∙ ap ok before, written, others)
      | inr (e, refused) ↦ inr (
        refused_not_Accepts host tsk resource new m refused,
        e,
        refused,
        refused_nonzero host tsk resource new m refused,
        do_prlimit-err host tsk resource (some new) m refused,
      )
    ]

-- A `do_prlimit` that is refused never returns 0.
pub do_prlimit-returns_zero :
    (host : Host) (tsk : Task) (resource : ℕ) (new : Option Rlimit) (m : Machine)
    → returns_zero (do_prlimit host tsk resource new m).0 ≡ false
unfolding do_prlimit
do_prlimit-returns_zero host tsk resource none m = ground arith
do_prlimit-returns_zero host tsk resource (some new) m = ground arith
