-- ===== src/ProcessGroups/Calls.antt =====
-- The system calls keep every process group in one session.
use so2_202003745_vd.Base.{
  ◌≡◌, ◌⊎◌, List, none, some, true, ℤ, inl, inr, ==ℤ_iff, Option-cases, arith, enter, is_zero, ok,
  err, neg, eperm,
}
use so2_202003745_vd.ProcessGroups.{
  Process, Host, find_process, group_member, change_group, lead_session, made_leader, may_move,
  may_join, set_group, setpgid, ksys_setsid, or_else,
}
use so2_202003745_vd.ProcessGroups.Members.{In, find_process-In, group_member-In}
use so2_202003745_vd.ProcessGroups.Sessions.{
  IsGrouped, Joins, change_group-IsGrouped, lead_session-IsGrouped,
}

-- `setpgid` leaves the list alone, or has moved a process that passed the tests.
set_group-cases :
    (h : Host) (me : Process) (pid pgid : ℤ) (ps : List Process) (p : Process)
    → find_process pid ps ≡ some p
    → let ps' = (enter (set_group h me pid pgid) ps).1 in
      (ps' ≡ ps)
      ⊎ ((is_zero (may_move me p) ≡ true)
          × (is_zero (may_join me pid pgid ps) ≡ true)
          × (ps' ≡ change_group pid pgid ps))
unfolding set_group
set_group-cases h me pid pgid ps p found = ground arith

set_group_missing :
    (h : Host) (me : Process) (pid pgid : ℤ) (ps : List Process)
    → find_process pid ps ≡ none
    → (enter (set_group h me pid pgid) ps).1 ≡ ps
unfolding set_group
set_group_missing h me pid pgid ps missing = ground arith

-- A process that may be moved is in the caller's session.
may_move-session :
    (me p : Process) (ps : List Process)
    → IsGrouped ps
    → In me ps
    → In p ps
    → is_zero (may_move me p) ≡ true
    → p.session ≡ me.session
unfolding may_move
may_move-session me p ps g im ip passed = ground (
  arith,
  ==ℤ_iff p.real_parent me.pid,
  ==ℤ_iff p.session me.session,
  ==ℤ_iff p.pid me.pid,
  g.unique_pid p me ip im,
)

may_join-Joins :
    (me p : Process) (pgid : ℤ) (ps : List Process)
    → IsGrouped ps
    → In p ps
    → p.session ≡ me.session
    → is_zero (may_join me p.pid pgid ps) ≡ true
    → Joins ps p pgid
unfolding may_join
may_join-Joins me p pgid ps g ip same passed q iq = elim (Option-cases (group_member pgid ps)) [
  | inl none_there ↦
      ground (arith, ==ℤ_iff pgid p.pid, g.own_session p q ip iq, g.unique_pid q p iq ip)
  | inr (m, found) ↦
      let (im, em) = group_member-In pgid ps m found in
      ground (
        arith,
        ==ℤ_iff pgid p.pid,
        ==ℤ_iff m.session me.session,
        g.own_session p q ip iq,
        g.own_session q m iq im,
        g.same_session q m iq im,
        g.unique_pid q p iq ip,
      )
]

set_group-IsGrouped :
    (h : Host) (me : Process) (pid pgid : ℤ) (ps : List Process)
    → IsGrouped ps
    → In me ps
    → IsGrouped (enter (set_group h me pid pgid) ps).1
set_group-IsGrouped h me pid pgid ps g i = elim (Option-cases (find_process pid ps)) [
  | inl missing ↦ rw (set_group_missing h me pid pgid ps missing) g
  | inr (p, found) ↦ elim (set_group-cases h me pid pgid ps p found) [
    | inl same ↦ rw same g
    | inr (moves, joins, e) ↦
        let (ip, pid_is) = find_process-In pid ps p found in
        let allowed =
          may_join-Joins me p pgid ps g ip (may_move-session me p ps g i ip moves)
            (rw pid_is joins) in
        rw (e, ← pid_is) (change_group-IsGrouped ps p pgid g ip allowed)
  ]
]

-- The calls by which processes change groups and sessions; `me` is the caller.
pub data Request : Type 0 where
  setpgid_by : (me : Process) (pid pgid : ℤ) → Request
  setsid_by : (me : Process) → Request

abbrev pub caller : Request → Process
caller (setpgid_by me pid pgid) = me
caller (setsid_by me) = me

unfoldable pub serve : Host → Request → List Process → List Process
serve h (setpgid_by me pid pgid) ps = (enter (setpgid h me pid pgid) ps).1
serve h (setsid_by me) ps = (enter (ksys_setsid me) ps).1

-- Any number of calls, each by a process of the list as it then is.
pub data Reach (h : Host) (ps : List Process) : List Process → Type 0 where
  here : Reach h ps ps
  next :
      {qs : List Process} (r : Request)
      → Reach h ps qs
      → In (caller r) qs
      → Reach h ps (serve h r qs)

setsid-cases :
    (me : Process) (ps : List Process)
    → let ps' = (enter (ksys_setsid me) ps).1 in
      (ps' ≡ ps) ⊎ ((group_member me.pid ps ≡ none) × (ps' ≡ lead_session me.pid ps))
unfolding ksys_setsid
setsid-cases me ps = ground arith

serve-IsGrouped :
    (h : Host) (r : Request) (ps : List Process)
    → IsGrouped ps
    → In (caller r) ps
    → IsGrouped (serve h r ps)
unfolding serve setpgid
serve-IsGrouped h (setpgid_by me pid pgid) ps g i =
    set_group-IsGrouped h me (or_else pid me.pid) (or_else pgid (or_else pid me.pid)) ps g i
serve-IsGrouped h (setsid_by me) ps g i = elim (setsid-cases me ps) [
  | inl same ↦ rw same g
  | inr (free, e) ↦ rw e (lead_session-IsGrouped ps me g i free)
]

-- No sequence of `setpgid` and `setsid` calls, by whatever processes and with whatever arguments,
-- splits a process group over two sessions, if none was split at the start and the group that bears
-- a process's number was of that process's session.
pub Reach-IsGrouped :
    (h : Host) (ps qs : List Process) → IsGrouped ps → Reach h ps qs → IsGrouped qs
Reach-IsGrouped h ps qs g here = g
Reach-IsGrouped h ps qs g (next {qs = rs} r path i) =
    serve-IsGrouped h r rs (Reach-IsGrouped h ps rs g path) i

-- `setsid` by a process that leads no session and whose number no group bears returns that number
-- and makes the process the leader of a session and a group of that number; otherwise it returns
-- -EPERM and changes nothing. So a second `setsid` by the process as it then is always fails.
pub setsid_once :
    (me : Process) (ps : List Process)
    → ((ksys_setsid me ps).0 ≡ ok me.pid)
        × ((ksys_setsid me ps).1 ≡ lead_session me.pid ps)
        × (ksys_setsid (made_leader me.pid me) (lead_session me.pid ps)
            ≡ (err (neg eperm), lead_session me.pid ps))
      ⊎ (ksys_setsid me ps ≡ (err (neg eperm), ps))
unfolding ksys_setsid
setsid_once me ps = ground (arith, ==ℤ_iff me.pid me.pid)
