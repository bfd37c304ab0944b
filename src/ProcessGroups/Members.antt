-- ===== src/ProcessGroups/Members.antt =====
-- Membership in the list of processes, and how the lookups and the updates treat it.
use so2_202003745_vd.Base.{◌≡◌, ◌⊎◌, refl, List, [], ◌∷◌, none, some, ℤ, inl, inr, ==ℤ_iff, arith}
use so2_202003745_vd.ProcessGroups.{
  Process, find_process, group_member, change_group, moved, lead_session, made_leader,
}

abbrev pub In : Process → List Process → Type 0
In p [] = ⊥
In p (q ∷ rest) = (p ≡ q) ⊎ In p rest

pub find_process-In :
    (pid : ℤ) (ps : List Process) (p : Process)
    → find_process pid ps ≡ some p
    → In p ps × (p.pid ≡ pid)
unfolding find_process
find_process-In pid [] p h = cc
find_process-In pid (q ∷ rest) p h = ground (arith, ==ℤ_iff q.pid pid, find_process-In pid rest p)

pub group_member-In :
    (pgrp : ℤ) (ps : List Process) (p : Process)
    → group_member pgrp ps ≡ some p
    → In p ps × (p.pgrp ≡ pgrp)
unfolding group_member
group_member-In pgrp [] p h = cc
group_member-In pgrp (q ∷ rest) p h =
    ground (arith, ==ℤ_iff q.pgrp pgrp, group_member-In pgrp rest p)

-- Where no member is found, no process is of the group.
pub group_member-none :
    (pgrp : ℤ) (ps : List Process) (p : Process)
    → group_member pgrp ps ≡ none
    → In p ps
    → ¬ (p.pgrp ≡ pgrp)
unfolding group_member
group_member-none pgrp [] p h i e = i
group_member-none pgrp (q ∷ rest) p h (inl same) e = ground (arith, ==ℤ_iff q.pgrp pgrp)
group_member-none pgrp (q ∷ rest) p h (inr there) e = ground (
  arith,
  ==ℤ_iff q.pgrp pgrp,
  λ (n : group_member pgrp rest ≡ none). group_member-none pgrp rest p n there e,
)

-- What stands in an updated list was in the list before.
pub In-change_group :
    (pid pgrp : ℤ) (ps : List Process) (q : Process)
    → In q (change_group pid pgrp ps)
    → (o : Process) × In o ps × (q ≡ moved pid pgrp o)
unfolding change_group
In-change_group pid pgrp [] q h = absurd h
In-change_group pid pgrp (p ∷ rest) q (inl here) = (p, inl refl, here)
In-change_group pid pgrp (p ∷ rest) q (inr there) =
    let (o, i, e) = In-change_group pid pgrp rest q there in (o, inr i, e)

pub In-lead_session :
    (pid : ℤ) (ps : List Process) (q : Process)
    → In q (lead_session pid ps)
    → (o : Process) × In o ps × (q ≡ made_leader pid o)
unfolding lead_session
In-lead_session pid [] q h = absurd h
In-lead_session pid (p ∷ rest) q (inl here) = (p, inl refl, here)
In-lead_session pid (p ∷ rest) q (inr there) =
    let (o, i, e) = In-lead_session pid rest q there in (o, inr i, e)
