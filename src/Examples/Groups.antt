-- ===== src/Examples/Groups.antt =====
-- A shell that leads a session, with a job of two processes.
use so2_202003745_vd.Base.{◌≡◌, ◌⊎◌, refl, List, [], ◌∷◌, true, false, pos, inl, inr, arith}
use so2_202003745_vd.ProcessGroups.{
  Process, Host, setpgid, find_process, set_group, may_move, may_join, change_group,
}
use so2_202003745_vd.ProcessGroups.Members.{In}
use so2_202003745_vd.ProcessGroups.Sessions.{IsGrouped}
use so2_202003745_vd.ProcessGroups.Calls.{here, next, setpgid_by, setsid_by, serve, Reach-IsGrouped}

abbrev shell : Process
shell = record {
  pid = pos 10;
  real_parent = pos 1;
  session = pos 10;
  pgrp = pos 10;
  leader = true;
  forknoexec = false;
}

abbrev editor : Process
editor = record {
  pid = pos 11;
  real_parent = pos 10;
  session = pos 10;
  pgrp = pos 10;
  leader = false;
  forknoexec = true;
}

abbrev pager : Process
pager = record {
  pid = pos 12;
  real_parent = pos 10;
  session = pos 10;
  pgrp = pos 11;
  leader = false;
  forknoexec = true;
}

abbrev processes : List Process
processes = shell ∷ editor ∷ pager ∷ []

abbrev host : Host
host = record {
  is_thread = λ n. false;
  security_task_setpgid = λ p g. pos 0;
  security_task_getpgid = λ p. pos 0;
  security_task_getsid = λ p. pos 0;
}

In-processes : (p : Process) → In p processes → (p ≡ shell) ⊎ ((p ≡ editor) ⊎ (p ≡ pager))
In-processes p (inl e) = inl e
In-processes p (inr (inl e)) = inr (inl e)
In-processes p (inr (inr (inl e))) = inr (inr e)
In-processes p (inr (inr (inr e))) = absurd e

processes-IsGrouped : IsGrouped processes
processes-IsGrouped = record {
  same_session = λ p q i j e. ground (arith, In-processes p i, In-processes q j);
  own_session = λ p q i j e. ground (arith, In-processes p i, In-processes q j);
  unique_pid = λ p q i j e. ground (arith, In-processes p i, In-processes q j);
}

-- The shell moves the editor to a group of its own; the pager then starts a session.
Reach-IsGrouped_example :
    IsGrouped
      (serve host (setsid_by pager) (serve host (setpgid_by shell (pos 11) (pos 0)) processes))
unfolding serve setpgid set_group find_process may_move may_join change_group
Reach-IsGrouped_example =
    Reach-IsGrouped host processes
      (serve host (setsid_by pager) (serve host (setpgid_by shell (pos 11) (pos 0)) processes))
      processes-IsGrouped
      (next (setsid_by pager) (next (setpgid_by shell (pos 11) (pos 0)) here (inl refl))
        (inr (inr (inl refl))))
