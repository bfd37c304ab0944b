-- ===== src/Clone/Calls.antt =====
-- `kernel_clone` and the calls that fill its arguments: `kernel_thread`, `user_mode_thread`, `fork`,
-- `vfork`, `clone`.
pub mod Flags
use so2_202003745_vd.Base.{
  ℕ, ◌+◌, Bool, true, false, ◌&&◌, not, List, [], ◌∷◌, ◌++◌, ℤ, pos, neg, ◌==◌, if◌then◌else◌,
  Result, ok, err, einval,
}
use so2_202003745_vd.Counters.{Counters, count_clone}
use so2_202003745_vd.Clone.{
  Process, References, test_bit, set_bit, csignal, no_csignal, lower_32_bits, sigchld, clone_vm,
  clone_vfork, clone_pidfd, clone_untraced, clone_parent_settid,
}
use so2_202003745_vd.Clone.CopyProcess.{ForkHost, KernelCloneArgs, copy_process}

-- PTRACE_EVENT_FORK, PTRACE_EVENT_VFORK, PTRACE_EVENT_CLONE, PTRACE_EVENT_VFORK_DONE
abbrev pub ptrace_event_fork : ℕ
ptrace_event_fork = 1

abbrev pub ptrace_event_vfork : ℕ
ptrace_event_vfork = 2

abbrev pub ptrace_event_clone : ℕ
ptrace_event_clone = 3

abbrev pub ptrace_event_vfork_done : ℕ
ptrace_event_vfork_done = 5

-- What `kernel_clone` does after the copy that others see.
pub data Event : Type 0 where
  -- `put_user(nr, address)`
  put_user : ℕ → ℕ → Event
  -- `wake_up_new_task(p)`
  wake_up_new_task : ℕ → Event
  -- `ptrace_event_pid(event, pid)`
  ptrace_event_pid : ℕ → ℕ → Event
  -- `wait_for_vfork_done(p, &vfork)`
  wait_for_vfork_done : ℕ → Event

-- What `kernel_clone` takes from the rest of the kernel: `ptrace_event_enabled(current, event)`, and
-- whether the wait for the child was killed.
pub record Tracer : Type 0 where
  pub ptrace_event_enabled : ℕ → Bool
  pub is_vfork_killed : Bool

-- `trace`, which is 0 for no event
unfoldable pub trace_event : Tracer → KernelCloneArgs → ℕ
trace_event tracer args =
    let event =
      if test_bit clone_vfork args.flags
      then ptrace_event_vfork
      else if not (args.exit_signal == sigchld)
      then ptrace_event_clone
      else ptrace_event_fork in
    if test_bit clone_untraced args.flags
    then 0
    else if tracer.ptrace_event_enabled event
    then event
    else 0

abbrev pub when : Bool → Event → List Event
when c e = if c then e ∷ [] else []

-- From `copy_process` to the end.
abbrev pub after_copy : Tracer → KernelCloneArgs → ℕ → List Event
after_copy tracer args nr =
    when (test_bit clone_parent_settid args.flags) (put_user nr args.parent_tid)
    ++ (wake_up_new_task nr ∷ [])
    ++ when (not (trace_event tracer args == 0)) (ptrace_event_pid (trace_event tracer args) nr)
    ++ when (test_bit clone_vfork args.flags) (wait_for_vfork_done nr)
    ++ when (test_bit clone_vfork args.flags && not tracer.is_vfork_killed)
        (ptrace_event_pid ptrace_event_vfork_done nr)

-- The counts, and the events so far.
pub record Clones : Type 0 where
  pub refs : References
  pub events : List Event

unfoldable pub kernel_clone : ForkHost → Tracer → Process → KernelCloneArgs → Clones → ℤ × Clones
kernel_clone host tracer current args s =
    let (r, w) = copy_process host current args s.refs in
    if (test_bit clone_pidfd args.flags && test_bit clone_parent_settid args.flags)
      && (args.pidfd == args.parent_tid)
    then (neg einval, s)
    else elim r [
      | err e ↦ (e, record s { refs = w })
      | ok p ↦ (pos p.pid, record { refs = w; events = s.events ++ after_copy tracer args p.pid })
    ]

-- `struct kernel_clone_args args = { };`
abbrev pub no_args : KernelCloneArgs
no_args = record {
  flags = 0;
  pidfd = 0;
  child_tid = 0;
  parent_tid = 0;
  exit_signal = 0;
  stack = 0;
  stack_size = 0;
  tls = 0;
  set_tid_size = 0;
  cgroup = 0;
  kthread = false;
  no_files = false;
}

-- The flags of the two kinds of thread that the kernel starts.
abbrev pub thread_flags : ℕ → ℕ
thread_flags flags = no_csignal (set_bit clone_untraced (set_bit clone_vm (lower_32_bits flags)))

unfoldable pub kernel_thread_args : ℕ → KernelCloneArgs
kernel_thread_args flags = record no_args {
  flags = thread_flags flags;
  exit_signal = csignal (lower_32_bits flags);
  kthread = true;
}

unfoldable pub user_mode_thread_args : ℕ → KernelCloneArgs
user_mode_thread_args flags = record no_args {
  flags = thread_flags flags;
  exit_signal = csignal (lower_32_bits flags);
}

abbrev pub fork_args : KernelCloneArgs
fork_args = record no_args { exit_signal = sigchld }

-- CLONE_VFORK | CLONE_VM
abbrev pub vfork_args : KernelCloneArgs
vfork_args = record no_args {
  flags = set_bit clone_vm (set_bit clone_vfork 0);
  exit_signal = sigchld;
}

unfoldable pub clone_args : ℕ → ℕ → ℕ → ℕ → ℕ → KernelCloneArgs
clone_args clone_flags newsp parent_tidptr child_tidptr tls = record no_args {
  flags = no_csignal (lower_32_bits clone_flags);
  pidfd = parent_tidptr;
  child_tid = child_tidptr;
  parent_tid = parent_tidptr;
  exit_signal = csignal (lower_32_bits clone_flags);
  stack = newsp;
  tls = tls;
}

module _ (host : ForkHost) (tracer : Tracer) (current : Process) where
  unfoldable pub kernel_thread : ℕ → Clones → ℤ × Clones
  kernel_thread flags s = kernel_clone host tracer current (kernel_thread_args flags) s

  unfoldable pub user_mode_thread : ℕ → Clones → ℤ × Clones
  user_mode_thread flags s = kernel_clone host tracer current (user_mode_thread_args flags) s

  unfoldable pub sys_fork : Clones → ℤ × Clones
  sys_fork s = kernel_clone host tracer current fork_args s

  unfoldable pub sys_vfork : Clones → ℤ × Clones
  sys_vfork s = kernel_clone host tracer current vfork_args s

  -- `clone`, which counts itself before it clones
  unfoldable pub sys_clone : ℕ → ℕ → ℕ → ℕ → ℕ → Clones × Counters → ℤ × (Clones × Counters)
  sys_clone clone_flags newsp parent_tidptr child_tidptr tls (s, counters) =
      let args = clone_args clone_flags newsp parent_tidptr child_tidptr tls in
      let (ret, s') = kernel_clone host tracer current args s in (ret, (s', count_clone counters))
