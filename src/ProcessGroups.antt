-- ===== src/ProcessGroups.antt =====
-- Process groups and sessions, Kernel/kernel/sys.c: `setpgid`, `getpgid`, `getsid`, `setsid`.
pub mod Members
pub mod Sessions
pub mod Calls
use so2_202003745_vd.Base.{
  List, [], ◌∷◌, Option, none, some, is_some, Bool, true, false, ◌&&◌, not, ℤ, pos, neg, ◌==ℤ◌,
  is_zero, is_neg, if◌then◌else◌, Call, ok, err, ◌>>=◌, ◌>>◌, pure, gets, modify, return_if,
  non_null, check, eperm, esrch, eacces, einval,
}

-- A process: its thread group leader's pid, that of its real parent's thread group, its session and
-- group (the numbers of their pids), and the flags that are read.
pub record Process : Type 0 where
  pub pid : ℤ
  pub real_parent : ℤ
  pub session : ℤ
  pub pgrp : ℤ
  -- `signal->leader`: whether it leads its session
  pub leader : Bool
  -- `flags & PF_FORKNOEXEC`
  pub forknoexec : Bool

-- What the calls take from the rest of the kernel; `is_thread` tells of a number that it is a thread
-- of a process and not its leader.
pub record Host : Type 0 where
  pub is_thread : ℤ → Bool
  pub security_task_setpgid : ℤ → ℤ → ℤ
  pub security_task_getpgid : ℤ → ℤ
  pub security_task_getsid : ℤ → ℤ

-- `find_task_by_vpid`, of a thread group leader
unfoldable pub find_process : ℤ → List Process → Option Process
find_process pid [] = none
find_process pid (p ∷ rest) = if p.pid ==ℤ pid then some p else find_process pid rest

-- `pid_task(pgrp, PIDTYPE_PGID)`: a process of the group
unfoldable pub group_member : ℤ → List Process → Option Process
group_member pgrp [] = none
group_member pgrp (p ∷ rest) = if p.pgrp ==ℤ pgrp then some p else group_member pgrp rest

abbrev pub moved : ℤ → ℤ → Process → Process
moved pid pgrp p = if p.pid ==ℤ pid then record p { pgrp = pgrp } else p

-- `change_pid(p, PIDTYPE_PGID, pgrp)`
unfoldable pub change_group : ℤ → ℤ → List Process → List Process
change_group pid pgrp [] = []
change_group pid pgrp (p ∷ rest) = moved pid pgrp p ∷ change_group pid pgrp rest

-- The test on a child, and on any other process.
unfoldable pub may_move : Process → Process → ℤ
may_move me p =
    if p.real_parent ==ℤ me.pid
    then if not (p.session ==ℤ me.session)
      then neg eperm
      else if not p.forknoexec
      then neg eacces
      else pos 0
    else if not (p.pid ==ℤ me.pid)
    then neg esrch
    else pos 0

-- The test on a group other than the process's own.
unfoldable pub may_join : Process → ℤ → ℤ → List Process → ℤ
may_join me pid pgid ps = if pgid ==ℤ pid then pos 0 else elim (group_member pgid ps) [
  | none ↦ neg eperm
  | some g ↦ if g.session ==ℤ me.session then pos 0 else neg eperm
]

abbrev pub or_else : ℤ → ℤ → ℤ
or_else id other = if is_zero id then other else id

-- `setpgid`, called by a thread of the process `me`, after the zeros are replaced
unfoldable pub set_group : Host → Process → ℤ → ℤ → Call (List Process) ℤ
set_group h me pid pgid = do
  return_if (is_neg pgid) (neg einval)
  ps ← gets (λ ps. ps)
  p ← non_null (find_process pid ps) (if h.is_thread pid then neg einval else neg esrch)
  check (may_move me p)
  return_if p.leader (neg eperm)
  check (may_join me pid pgid ps)
  check (h.security_task_setpgid pid pgid)
  modify (change_group pid pgid)
  pure (pos 0)

-- `setpgid`
unfoldable pub setpgid : Host → Process → ℤ → ℤ → Call (List Process) ℤ
setpgid h me pid pgid = let pid' = or_else pid me.pid in set_group h me pid' (or_else pgid pid')

-- `do_getpgid`
unfoldable pub do_getpgid : Host → Process → ℤ → Call (List Process) ℤ
do_getpgid h me pid = do
  ps ← gets (λ ps. ps)
  p ← (if is_zero pid then pure me else non_null (find_process pid ps) (neg esrch))
  check (if is_zero pid then pos 0 else h.security_task_getpgid p.pid)
  pure p.pgrp

-- `getsid`
unfoldable pub getsid : Host → Process → ℤ → Call (List Process) ℤ
getsid h me pid = do
  ps ← gets (λ ps. ps)
  p ← (if is_zero pid then pure me else non_null (find_process pid ps) (neg esrch))
  check (if is_zero pid then pos 0 else h.security_task_getsid p.pid)
  pure p.session

abbrev pub made_leader : ℤ → Process → Process
made_leader pid p =
    if p.pid ==ℤ pid then record p { leader = true; session = pid; pgrp = pid } else p

-- `signal->leader = 1` and `set_special_pids`
unfoldable pub lead_session : ℤ → List Process → List Process
lead_session pid [] = []
lead_session pid (p ∷ rest) = made_leader pid p ∷ lead_session pid rest

-- `ksys_setsid`
unfoldable pub ksys_setsid : Process → Call (List Process) ℤ
ksys_setsid me = do
  ps ← gets (λ ps. ps)
  return_if me.leader (neg eperm)
  return_if (is_some (group_member me.pid ps)) (neg eperm)
  modify (lead_session me.pid)
  pure me.pid
