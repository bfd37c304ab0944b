-- ===== src/Prctl.antt =====
-- `prctl`, Kernel/kernel/sys.c: the options that the call serves itself. Options that it passes to
-- the processor or to other files are a parameter.
pub mod Kept
pub mod Roundtrip
pub mod ExeFile
pub mod SetMm
use so2_202003745_vd.Base.{
  ℕ, ◌+◌, ◌^◌, Bool, true, false, List, ◌&&◌, ◌||◌, not, Option, none, some, ℤ, pos, negsuc, neg,
  ltb, ◌==◌, ◌==ℤ◌, if◌then◌else◌, signed64, einval, efault, eperm, eintr, enosys, cap_sys_resource,
}

-- PR_SET_PDEATHSIG and its like; `elsewhere` is an option that another function serves.
pub data PrOption : Type 0 where
  set_pdeathsig get_pdeathsig get_dumpable set_dumpable get_timing set_timing : PrOption
  set_name get_name : PrOption
  get_timerslack set_timerslack mce_kill mce_kill_get : PrOption
  set_child_subreaper get_child_subreaper set_no_new_privs get_no_new_privs : PrOption
  get_thp_disable set_thp_disable set_io_flusher get_io_flusher unknown : PrOption
  elsewhere : ℕ → PrOption

-- `arg2` to `arg5`, unsigned longs
pub record Args : Type 0 where
  pub arg2 : ℕ
  pub arg3 : ℕ
  pub arg4 : ℕ
  pub arg5 : ℕ

-- The fields of the current task, its signal struct and its address space that the options read or
-- write, and the number and the name that were last written to user space.
pub record Attributes : Type 0 where
  pub pdeath_signal : ℕ
  pub dumpable : ℕ
  pub timer_slack_ns : ℕ
  pub default_timer_slack_ns : ℕ
  pub pf_mce_process : Bool
  pub pf_mce_early : Bool
  pub is_child_subreaper : Bool
  pub no_new_privs : Bool
  pub mmf_disable_thp : Bool
  pub io_flusher : Bool
  pub comm : List ℕ
  pub written : Option ℕ
  pub written_name : Option (List ℕ)

-- `security_task_prctl`, `put_user` (whether the address can be written), `capable`, whether the wait
-- for `mmap_lock` is killed, and the options served elsewhere, which keep to their own state.
pub record PrHost : Type 0 where
  pub security_task_prctl : PrOption → Args → ℤ
  pub can_put_user : ℕ → Bool
  -- the string at an address, cut to 15 bytes, if it can be read
  pub strncpy_from_user : ℕ → Option (List ℕ)
  pub capable : ℕ → Bool
  pub is_lock_killed : Bool
  pub serve : ℕ → Args → ℤ

-- SIGRTMAX, and the values of PR_MCE_KILL
abbrev pub last_signal : ℕ
last_signal = 64

abbrev pub pr_mce_kill_clear : ℕ
pr_mce_kill_clear = 0

abbrev pub pr_mce_kill_set : ℕ
pr_mce_kill_set = 1

abbrev pub pr_mce_kill_late : ℕ
pr_mce_kill_late = 0

abbrev pub pr_mce_kill_early : ℕ
pr_mce_kill_early = 1

abbrev pub pr_mce_kill_default : ℕ
pr_mce_kill_default = 2

-- `argN || ... || arg5`
abbrev pub nonzero : ℕ → Bool
nonzero n = not (n == 0)

abbrev pub any_from3 : Args → Bool
any_from3 a = nonzero a.arg3 || nonzero a.arg4 || nonzero a.arg5

abbrev pub any_from2 : Args → Bool
any_from2 a = nonzero a.arg2 || any_from3 a

abbrev pub Answer : Type 0
Answer = ℤ × Attributes

-- `error = put_user(value, (int __user *)arg2)`
abbrev pub put_user : PrHost → ℕ → ℕ → Attributes → Answer
put_user host address value s =
    if host.can_put_user address
    then (pos 0, record s { written = some value })
    else (neg efault, s)

abbrev pub as_number : Bool → ℕ
as_number b = if b then 1 else 0

-- The inner switch of PR_MCE_KILL_SET: the flag is set before `arg3` is looked at.
unfoldable pub mce_set : ℕ → Attributes → Answer
mce_set policy s =
    let marked : Attributes = record s { pf_mce_process = true } in
    if policy == pr_mce_kill_early
    then (pos 0, record marked { pf_mce_early = true })
    else if policy == pr_mce_kill_late
    then (pos 0, record marked { pf_mce_early = false })
    else if policy == pr_mce_kill_default
    then (pos 0, record marked { pf_mce_early = false; pf_mce_process = false })
    else (neg einval, marked)

unfoldable pub mce_kill_option : Args → Attributes → Answer
mce_kill_option a s =
    if nonzero a.arg4 || nonzero a.arg5
    then (neg einval, s)
    else if a.arg2 == pr_mce_kill_clear
    then if nonzero a.arg3 then (neg einval, s) else (pos 0, record s { pf_mce_process = false })
    else if a.arg2 == pr_mce_kill_set
    then mce_set a.arg3 s
    else (neg einval, s)

unfoldable pub mce_kill_policy : Attributes → ℕ
mce_kill_policy s =
    if s.pf_mce_process
    then if s.pf_mce_early then pr_mce_kill_early else pr_mce_kill_late
    else pr_mce_kill_default

unfoldable pub set_io_flusher_option : PrHost → Args → Attributes → Answer
set_io_flusher_option host a s =
    if not (host.capable cap_sys_resource)
    then (neg eperm, s)
    else if any_from3 a
    then (neg einval, s)
    else if a.arg2 == 1
    then (pos 0, record s { io_flusher = true })
    else if a.arg2 == 0
    then (pos 0, record s { io_flusher = false })
    else (neg einval, s)

-- The switch.
unfoldable pub serve_option : PrHost → PrOption → Args → Attributes → Answer
serve_option host set_pdeathsig a s =
    if ltb last_signal a.arg2 then (neg einval, s) else (pos 0, record s { pdeath_signal = a.arg2 })
serve_option host get_pdeathsig a s = put_user host a.arg2 s.pdeath_signal s
serve_option host get_dumpable a s = (pos s.dumpable, s)
serve_option host set_dumpable a s =
    if nonzero a.arg2 && not (a.arg2 == 1)
    then (neg einval, s)
    else (pos 0, record s { dumpable = a.arg2 })
serve_option host get_timing a s = (pos 0, s)
serve_option host set_timing a s = (if nonzero a.arg2 then neg einval else pos 0, s)
serve_option host set_name a s = elim (host.strncpy_from_user a.arg2) [
  | none ↦ (neg efault, s)
  | some name ↦ (pos 0, record s { comm = name })
]
serve_option host get_name a s =
    if host.can_put_user a.arg2
    then (pos 0, record s { written_name = some s.comm })
    else (neg efault, s)
serve_option host get_timerslack a s = (signed64 s.timer_slack_ns, s)
serve_option host set_timerslack a s =
    (pos 0, record s { timer_slack_ns = if a.arg2 == 0 then s.default_timer_slack_ns else a.arg2 })
serve_option host mce_kill a s = mce_kill_option a s
serve_option host mce_kill_get a s =
    if any_from2 a then (neg einval, s) else (pos (mce_kill_policy s), s)
serve_option host set_child_subreaper a s =
    (pos 0, record s { is_child_subreaper = nonzero a.arg2 })
serve_option host get_child_subreaper a s = put_user host a.arg2 (as_number s.is_child_subreaper) s
serve_option host set_no_new_privs a s =
    if not (a.arg2 == 1) || any_from3 a
    then (neg einval, s)
    else (pos 0, record s { no_new_privs = true })
serve_option host get_no_new_privs a s =
    if any_from2 a then (neg einval, s) else (pos (as_number s.no_new_privs), s)
serve_option host get_thp_disable a s =
    if any_from2 a then (neg einval, s) else (pos (as_number s.mmf_disable_thp), s)
serve_option host set_thp_disable a s =
    if any_from3 a
    then (neg einval, s)
    else if host.is_lock_killed
    then (neg eintr, s)
    else (pos 0, record s { mmf_disable_thp = nonzero a.arg2 })
serve_option host set_io_flusher a s = set_io_flusher_option host a s
serve_option host get_io_flusher a s =
    if not (host.capable cap_sys_resource)
    then (neg eperm, s)
    else if any_from2 a
    then (neg einval, s)
    else (pos (as_number s.io_flusher), s)
serve_option host unknown a s = (neg einval, s)
serve_option host (elsewhere n) a s = (host.serve n a, s)

unfoldable pub prctl : PrHost → PrOption → Args → Attributes → Answer
prctl host option a s =
    if not (host.security_task_prctl option a ==ℤ neg enosys)
    then (host.security_task_prctl option a, s)
    else serve_option host option a s
