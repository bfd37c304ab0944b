-- ===== src/Priority/Permitted.antt =====
-- Which threads `setpriority` may change.
use so2_202003745_vd.Base.{
  ltz, ◌≡◌, ◌⊎◌, refl, List, [], ◌∷◌, Bool, true, false, ℤ, pos, neg, inl, inr, is_zero, arith,
  Bool-cases, ◌==ℤ◌, esrch,
}
use so2_202003745_vd.Priority.{
  Thread, Host, cap_sys_nice, set_one_prio_perm, set_one_prio, set_all, set_thread, setpriority,
  clamp_nice, in_group, of_user, user_of, or_own,
}

-- The caller may change the thread: its user or effective user is the caller's effective user, or the
-- caller has CAP_SYS_NICE in the thread's namespace.
abbrev pub MayRenice : Host → Thread → Thread → Type 0
MayRenice h me p =
    (p.uid ≡ me.euid) ⊎ (p.euid ≡ me.euid) ⊎ (h.ns_capable p.user_ns cap_sys_nice ≡ true)

-- `n` is the value asked for, if that lies from -20 to 19, or else the nearer end.
abbrev pub BroughtInto : ℤ → ℤ → Type 0
BroughtInto niceval n =
    ((ltz niceval (neg 20) ≡ true) × (n ≡ neg 20))
    ⊎ ((ltz (pos 19) niceval ≡ true) × (n ≡ pos 19))
    ⊎ ((ltz niceval (neg 20) ≡ false) × (ltz (pos 19) niceval ≡ false) × (n ≡ niceval))

-- The thread is as it was, or the caller may change it, and only its nice value has become `n`,
-- which is not below the old one unless the thread may go there.
abbrev pub Reniced : Host → Thread → ℤ → Thread → Thread → Type 0
Reniced h me n p q =
    (q ≡ p)
    ⊎ ((q ≡ record p { nice = n })
        × MayRenice h me p
        × ((ltz n p.nice ≡ false) ⊎ (h.can_nice p n ≡ true))
        × (is_zero (h.security_task_setnice p n) ≡ true))

-- Thread by thread.
abbrev pub AllReniced : Host → Thread → ℤ → List Thread → List Thread → Type 0
AllReniced h me n [] [] = Unit {0}
AllReniced h me n [] (q ∷ qs) = ⊥
AllReniced h me n (p ∷ ps) [] = ⊥
AllReniced h me n (p ∷ ps) (q ∷ qs) = Reniced h me n p q × AllReniced h me n ps qs

AllReniced-refl : (h : Host) (me : Thread) (n : ℤ) (ps : List Thread) → AllReniced h me n ps ps
AllReniced-refl h me n [] = tt
AllReniced-refl h me n (p ∷ ps) = (inl refl, AllReniced-refl h me n ps)

set_one_prio-Reniced :
    (h : Host) (me p : Thread) (n error : ℤ) → Reniced h me n p (set_one_prio h me p n error).1
unfolding set_one_prio set_one_prio_perm
set_one_prio-Reniced h me p n error = ground arith

set_all-AllReniced :
    (h : Host) (me : Thread) (chosen : Thread → Bool) (n error : ℤ) (ps : List Thread)
    → AllReniced h me n ps (set_all h me chosen n error ps).1
unfolding set_all
set_all-AllReniced h me chosen n error [] = tt
set_all-AllReniced h me chosen n error (p ∷ ps) = elim (Bool-cases (chosen p)) [
  | inl in_it ↦ rw in_it (
    set_one_prio-Reniced h me p n error,
    set_all-AllReniced h me chosen n (set_one_prio h me p n error).0 ps,
  )
  | inr out ↦ rw out (inl refl, set_all-AllReniced h me chosen n error ps)
]

set_thread-AllReniced :
    (h : Host) (me : Thread) (pid n error : ℤ) (ps : List Thread)
    → AllReniced h me n ps (set_thread h me pid n error ps).1
unfolding set_thread
set_thread-AllReniced h me pid n error [] = tt
set_thread-AllReniced h me pid n error (p ∷ ps) = ground (
  arith,
  set_one_prio-Reniced h me p n error,
  AllReniced-refl h me n ps,
  set_thread-AllReniced h me pid n error ps,
)

all_clamped :
    (h : Host) (me : Thread) (which who niceval : ℤ) (ps : List Thread)
    → AllReniced h me (clamp_nice niceval) ps (setpriority h me which who niceval ps).1
unfolding setpriority
all_clamped h me which who niceval ps =
    let n = clamp_nice niceval in
    elim (Bool-cases (which ==ℤ pos 0)) [
      | inl process ↦ rw process (set_thread-AllReniced h me (or_own who me.pid) n (neg esrch) ps)
      | inr no_process ↦ elim (Bool-cases (which ==ℤ pos 1)) [
        | inl group ↦
            rw (no_process, group)
              (set_all-AllReniced h me (in_group (or_own who me.pgrp)) n (neg esrch) ps)
        | inr no_group ↦
            let all = set_all-AllReniced h me (of_user (user_of h me who)) n (neg esrch) ps in
            rw (no_process, no_group) (ground (arith, AllReniced-refl h me n ps, all))
      ]
    ]

-- Whatever `setpriority` is asked, each thread is afterwards as it was, or it is one that the caller
-- may change (its user or effective user is the caller's effective user, or the caller has CAP_SYS_NICE
-- in the thread's namespace) and only its nice value has
-- become the one asked for, brought between -20 and 19; the value has not become less unless the
-- thread may have it, and the security module agreed.
pub setpriority-AllReniced :
    (h : Host) (me : Thread) (which who niceval : ℤ) (ps : List Thread)
    → (n : ℤ) × BroughtInto niceval n
      × AllReniced h me n ps (setpriority h me which who niceval ps).1
setpriority-AllReniced h me which who niceval ps =
    (clamp_nice niceval, ground arith, all_clamped h me which who niceval ps)
