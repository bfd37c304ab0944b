-- ===== src/Clone/CopyProcess.antt =====
-- `copy_process`: the tests of the flags, the copies in their order with the release of what was
-- taken on each error, the identity of the child, and the counters at the end.
pub mod Undo
pub mod Threads
pub mod Private
use so2_202003745_vd.Base.{
  ℕ, ◌+◌, Bool, true, false, ◌&&◌, ◌||◌, not, Option, none, some, ℤ, pos, negsuc, neg, is_zero,
  is_neg, if◌then◌else◌, Result, ok, err, ◌==◌, einval, enomem, eintr, erestartnointr,
}
use so2_202003745_vd.Clone.{
  Process, References, set_at, increment, test_bit, clone_newns, clone_fs, clone_newuser,
  clone_thread, clone_sighand, clone_vm, clone_parent, clone_newpid, clone_pidfd, clone_detached,
  clone_child_settid, clone_child_cleartid,
}
use so2_202003745_vd.Clone.Resources.{
  Allocators, copy_files, copy_fs, copy_sighand, copy_signal, copy_mm, mmput, cleanup_signal,
  cleanup_sighand, cleanup_files,
}

-- `struct kernel_clone_args`, less the function of a kernel thread and its name
pub record KernelCloneArgs : Type 0 where
  pub flags : ℕ
  pub pidfd : ℕ
  pub child_tid : ℕ
  pub parent_tid : ℕ
  pub exit_signal : ℕ
  pub stack : ℕ
  pub stack_size : ℕ
  pub tls : ℕ
  pub set_tid_size : ℕ
  pub cgroup : ℕ
  pub kthread : Bool
  pub no_files : Bool

-- `IS_ERR(p) ? PTR_ERR(p) : 0`
abbrev pub result_error : Result ℕ → ℤ
result_error (ok p) = pos 0
result_error (err e) = e

abbrev pub result_value : Result ℕ → ℕ
result_value (ok p) = p
result_value (err e) = 0

-- What `copy_process` takes from the rest of the kernel. A step is its result, an error or 0:
-- `setup` is the first error of the steps before `copy_files` (`dup_task_struct` to `copy_semundo`)
-- and the fields after `new_task` are the steps after `copy_mm`.
pub record ForkHost : Type 0 where
  pub allocators : Allocators
  -- `current->signal->flags & SIGNAL_UNKILLABLE`
  pub is_unkillable : Bool
  -- `task_active_pid_ns(current) != nsp->pid_ns_for_children`
  pub other_pid_ns : Bool
  pub task_sigpending : Bool
  pub setup : ℤ
  -- the address of the new `task_struct`
  pub new_task : ℕ
  pub copy_namespaces : ℤ
  pub copy_io : ℤ
  pub copy_thread : ℤ
  pub alloc_pid : Result ℕ
  -- `__pidfd_prepare` or `put_user` of its result
  pub prepare_pidfd : ℤ
  pub cgroup_can_fork : ℤ
  -- `!(ns_of_pid(pid)->pid_allocated & PIDNS_ADDING)`
  pub is_dying_pid_ns : Bool
  pub fatal_signal_pending : Bool
  -- `current->group_leader->exit_signal`
  pub leader_exit_signal : ℤ

-- The tests of the flags, in their order: an error or 0.
unfoldable pub clone_flags_check : ForkHost → ℕ → ℤ
clone_flags_check host flags =
    if test_bit clone_newns flags && test_bit clone_fs flags
    then neg einval
    else if test_bit clone_newuser flags && test_bit clone_fs flags
    then neg einval
    else if test_bit clone_thread flags && not (test_bit clone_sighand flags)
    then neg einval
    else if test_bit clone_sighand flags && not (test_bit clone_vm flags)
    then neg einval
    else if test_bit clone_parent flags && host.is_unkillable
    then neg einval
    else if test_bit clone_thread flags
        && ((test_bit clone_newuser flags || test_bit clone_newpid flags) || host.other_pid_ns)
    then neg einval
    else if test_bit clone_pidfd flags
        && (test_bit clone_detached flags || test_bit clone_thread flags)
    then neg einval
    else if host.task_sigpending
    then neg erestartnointr
    else pos 0

-- The copies in progress: what the child points to, and the counts.
pub record Copied : Type 0 where
  pub files : Option ℕ
  pub fs : ℕ
  pub sighand : ℕ
  pub signal : ℕ
  pub mm : Option ℕ
  pub refs : References

-- The releases of the labels from `bad_fork_cleanup_files` up, each followed by those below it.
abbrev pub from_cleanup_files : Allocators → Copied → Copied
from_cleanup_files host c = record c {
  refs = record c.refs { files_count = cleanup_files host c.files c.refs.files_count };
}

abbrev pub from_cleanup_fs : Allocators → Copied → Copied
from_cleanup_fs host c =
    from_cleanup_files host
      (record c { refs = record c.refs { fs_users = host.exit_fs c.fs c.refs.fs_users } })

abbrev pub from_cleanup_sighand : Allocators → Copied → Copied
from_cleanup_sighand host c = from_cleanup_fs host (record c {
  refs = record c.refs { sighand_count = cleanup_sighand c.sighand c.refs.sighand_count };
})

abbrev pub from_cleanup_signal : Allocators → ℕ → Copied → Copied
from_cleanup_signal host flags c = from_cleanup_sighand host (record c {
  refs = record c.refs { group_threads = cleanup_signal flags c.signal c.refs.group_threads };
})

abbrev pub from_cleanup_mm : Allocators → ℕ → Copied → Copied
from_cleanup_mm host flags c =
    from_cleanup_signal host flags
      (record c { refs = record c.refs { mm_users = mmput c.mm c.refs.mm_users } })

-- The child as `dup_task_struct` makes it: it points to what the current task points to.
abbrev pub inherited : Process → References → Copied
inherited current w = record {
  files = current.files;
  fs = current.fs;
  sighand = current.sighand;
  signal = current.signal;
  mm = current.mm;
  refs = w;
}

-- The copies, `copy_files` to `copy_mm`: an error or 0, and the state then.
unfoldable pub copy_resources : Allocators → Process → ℕ → Bool → References → ℤ × Copied
copy_resources host current flags no_files w =
    let c0 = inherited current w in
    let (r1, (files, files_count)) = copy_files host current flags no_files w.files_count in
    let c1 : Copied = record c0 { files = files; refs = record w { files_count = files_count } } in
    let (r2, (fs, fs_users)) = copy_fs host current flags w.fs_users in
    let c2 : Copied = record c1 { fs = fs; refs = record c1.refs { fs_users = fs_users } } in
    let (r3, (sighand, sighand_count)) = copy_sighand host current flags w.sighand_count in
    let c3 : Copied = record c2 {
      sighand = sighand;
      refs = record c2.refs { sighand_count = sighand_count };
    } in
    let (r4, (signal, group_threads)) = copy_signal host current flags w.group_threads in
    let c4 : Copied = record c3 {
      signal = signal;
      refs = record c3.refs { group_threads = group_threads };
    } in
    let (r5, (mm, mm_users)) = copy_mm host current flags w.mm_users in
    let c5 : Copied = record c4 { mm = mm; refs = record c4.refs { mm_users = mm_users } } in
    if not (is_zero r1)
    then (r1, c0)
    else if not (is_zero r2)
    then (r2, from_cleanup_files host c1)
    else if not (is_zero r3)
    then (r3, from_cleanup_fs host c2)
    else if not (is_zero r4)
    then (r4, from_cleanup_sighand host c3)
    else if not (is_zero r5)
    then (r5, from_cleanup_signal host flags c4)
    else (pos 0, c5)

-- The steps after the identity of the child is set, up to the last that can fail.
unfoldable pub late_check : ForkHost → ℤ
late_check host =
    if not (is_zero host.cgroup_can_fork)
    then host.cgroup_can_fork
    else if host.is_dying_pid_ns
    then neg enomem
    else if host.fatal_signal_pending
    then neg eintr
    else pos 0

-- The steps after the copies: an error or 0. The pid comes from `alloc_pid`.
unfoldable pub finish_check : ForkHost → ℕ → ℤ
finish_check host flags =
    if not (is_zero host.copy_namespaces)
    then host.copy_namespaces
    else if not (is_zero host.copy_io)
    then host.copy_io
    else if not (is_zero host.copy_thread)
    then host.copy_thread
    else if not (is_zero (result_error host.alloc_pid))
    then result_error host.alloc_pid
    else if test_bit clone_pidfd flags && is_neg host.prepare_pidfd
    then host.prepare_pidfd
    else late_check host

-- The part under `CLONE_PARENT | CLONE_THREAD`: the parent, and the signal at the exit.
abbrev pub is_sibling : ℕ → Bool
is_sibling flags = test_bit clone_parent flags || test_bit clone_thread flags

abbrev pub parent_of : Process → ℕ → ℕ
parent_of current flags = if is_sibling flags then current.real_parent else current.address

abbrev pub exit_signal_of : ForkHost → KernelCloneArgs → ℤ
exit_signal_of host args =
    if is_sibling args.flags
    then if test_bit clone_thread args.flags then negsuc 0 else host.leader_exit_signal
    else pos args.exit_signal

-- Who the child is: `p->pid` to `p->tgid`, with the parent and the two addresses of thread ids.
unfoldable pub new_process : ForkHost → Process → KernelCloneArgs → ℕ → Copied → Process
new_process host current args pid c =
    let is_thread = test_bit clone_thread args.flags in
    record {
      address = host.new_task;
      pid = pid;
      tgid = if is_thread then current.tgid else pid;
      group_leader = if is_thread then current.group_leader else host.new_task;
      real_parent = parent_of current args.flags;
      exit_signal = exit_signal_of host args;
      mm = c.mm;
      fs = c.fs;
      files = c.files;
      sighand = c.sighand;
      signal = c.signal;
      set_child_tid = if test_bit clone_child_settid args.flags then args.child_tid else 0;
      clear_child_tid = if test_bit clone_child_cleartid args.flags then args.child_tid else 0;
    }

-- The counters, when nothing can fail any more; `thread_group_leader(p)` is read off
-- `p->exit_signal`.
unfoldable pub count_fork : Process → Process → References → References
count_fork current p w =
    let grown =
      if is_neg p.exit_signal then increment current.signal w.group_threads else w.group_threads in
    if p.pid == 0 then record w { total_forks = w.total_forks + 1 } else record w {
      group_threads = grown;
      nr_threads = w.nr_threads + 1;
      total_forks = w.total_forks + 1;
    }

-- `copy_process`, for a pid that is to be allocated.
unfoldable pub copy_process :
    ForkHost → Process → KernelCloneArgs → References → Result Process × References
copy_process host current args w =
    let refused = clone_flags_check host args.flags in
    let (ret, c) = copy_resources host.allocators current args.flags args.no_files w in
    let late = finish_check host args.flags in
    let p = new_process host current args (result_value host.alloc_pid) c in
    if not (is_zero refused)
    then (err refused, w)
    else if not (is_zero host.setup)
    then (err host.setup, w)
    else if not (is_zero ret)
    then (err ret, c.refs)
    else if not (is_zero late)
    then (err late, (from_cleanup_mm host.allocators args.flags c).refs)
    else (ok p, count_fork current p c.refs)
