-- ===== src/ProcessGroups/Sessions.antt =====
-- A process group lies in one session.
use so2_202003745_vd.Base.{◌≡◌, List, none, ℤ, ==ℤ_iff, arith}
use so2_202003745_vd.ProcessGroups.{Process, group_member, change_group, lead_session}
use so2_202003745_vd.ProcessGroups.Members.{In, group_member-none, In-change_group, In-lead_session}

-- Processes of one group are of one session; the group that bears a process's number is of that
-- process's session; a number belongs to one process.
pub record IsGrouped (ps : List Process) : Type 0 where
  pub same_session : (p q : Process) → In p ps → In q ps → p.pgrp ≡ q.pgrp → p.session ≡ q.session
  pub own_session : (p q : Process) → In p ps → In q ps → q.pgrp ≡ p.pid → q.session ≡ p.session
  pub unique_pid : (p q : Process) → In p ps → In q ps → p.pid ≡ q.pid → p ≡ q

-- The group that a process may move to is in its session: every process of it is, and so is the
-- process that bears its number.
abbrev pub Joins : List Process → Process → ℤ → Type 0
Joins ps p pgid =
    (q : Process)
    → In q ps
    → (q.pgrp ≡ pgid → q.session ≡ p.session) × (q.pid ≡ pgid → q.session ≡ p.session)

pub change_group-IsGrouped :
    (ps : List Process) (p : Process) (pgid : ℤ)
    → IsGrouped ps
    → In p ps
    → Joins ps p pgid
    → IsGrouped (change_group p.pid pgid ps)
change_group-IsGrouped ps p pgid g i joins = record {
  same_session = λ a b ia ib e.
      let (o, io, eo) = In-change_group p.pid pgid ps a ia in
      let (r, ir, er) = In-change_group p.pid pgid ps b ib in
      ground (
        arith,
        ==ℤ_iff o.pid p.pid,
        ==ℤ_iff r.pid p.pid,
        g.same_session o r io ir,
        g.unique_pid o p io i,
        g.unique_pid r p ir i,
        joins o io,
        joins r ir,
      );
  own_session = λ a b ia ib e.
      let (o, io, eo) = In-change_group p.pid pgid ps a ia in
      let (r, ir, er) = In-change_group p.pid pgid ps b ib in
      ground (
        arith,
        ==ℤ_iff o.pid p.pid,
        ==ℤ_iff r.pid p.pid,
        g.own_session o r io ir,
        g.unique_pid o p io i,
        g.unique_pid r p ir i,
        joins o io,
        joins r ir,
      );
  unique_pid = λ a b ia ib e.
      let (o, io, eo) = In-change_group p.pid pgid ps a ia in
      let (r, ir, er) = In-change_group p.pid pgid ps b ib in
      ground (arith, ==ℤ_iff o.pid p.pid, ==ℤ_iff r.pid p.pid, g.unique_pid o r io ir);
}

pub lead_session-IsGrouped :
    (ps : List Process) (me : Process)
    → IsGrouped ps
    → In me ps
    → group_member me.pid ps ≡ none
    → IsGrouped (lead_session me.pid ps)
lead_session-IsGrouped ps me g i free = record {
  same_session = λ a b ia ib e.
      let (o, io, eo) = In-lead_session me.pid ps a ia in
      let (r, ir, er) = In-lead_session me.pid ps b ib in
      ground (
        arith,
        ==ℤ_iff o.pid me.pid,
        ==ℤ_iff r.pid me.pid,
        g.same_session o r io ir,
        group_member-none me.pid ps o free io,
        group_member-none me.pid ps r free ir,
      );
  own_session = λ a b ia ib e.
      let (o, io, eo) = In-lead_session me.pid ps a ia in
      let (r, ir, er) = In-lead_session me.pid ps b ib in
      ground (
        arith,
        ==ℤ_iff o.pid me.pid,
        ==ℤ_iff r.pid me.pid,
        g.own_session o r io ir,
        g.unique_pid o me io i,
        group_member-none me.pid ps r free ir,
      );
  unique_pid = λ a b ia ib e.
      let (o, io, eo) = In-lead_session me.pid ps a ia in
      let (r, ir, er) = In-lead_session me.pid ps b ib in
      ground (arith, ==ℤ_iff o.pid me.pid, ==ℤ_iff r.pid me.pid, g.unique_pid o r io ir);
}
