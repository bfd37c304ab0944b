-- ===== src/Clone/CopyProcess/Threads.antt =====
-- What a new process or thread shares with the one that makes it.
use so2_202003745_vd.Base.{ℕ, ◌+◌, Bool, true, false, some, pos, negsuc, arith, ok, ◌≡◌, ◌≢◌}
use so2_202003745_vd.Clone.{
  Process, References, test_bit, increment, clone_thread, clone_sighand, clone_vm, clone_fs,
  clone_newns, clone_newuser, clone_newpid, clone_pidfd,
}
use so2_202003745_vd.Clone.Resources.{Allocators, copy_fs, copy_sighand, copy_signal, copy_mm}
use so2_202003745_vd.Clone.CopyProcess.{
  ForkHost, KernelCloneArgs, Copied, copy_resources, copy_process, clone_flags_check, new_process,
  count_fork, result_value,
}

-- The flags that pass: a thread shares the signal handlers, which need the address space to be
-- shared, and what is shared is not at once made new.
pub clone_flags_check_closed :
    (host : ForkHost) (flags : ℕ)
    → clone_flags_check host flags ≡ pos 0
    → (test_bit clone_thread flags ≡ true → test_bit clone_sighand flags ≡ true)
      × (test_bit clone_sighand flags ≡ true → test_bit clone_vm flags ≡ true)
      × (test_bit clone_fs flags ≡ true
          → (test_bit clone_newns flags ≡ false) × (test_bit clone_newuser flags ≡ false))
      × (test_bit clone_thread flags ≡ true
          → (test_bit clone_newuser flags ≡ false)
            × (test_bit clone_newpid flags ≡ false)
            × (test_bit clone_pidfd flags ≡ false))
unfolding clone_flags_check
clone_flags_check_closed host flags passed =
    (ground arith, ground arith, (λ h. ground arith), λ h. ground arith)

module _ (host : Allocators) (current : Process) (flags : ℕ) (counts : ℕ → ℕ) where
  copy_sighand_shared :
      test_bit clone_sighand flags ≡ true
      → copy_sighand host current flags counts
        ≡ (pos 0, (current.sighand, increment current.sighand counts))
  unfolding copy_sighand
  copy_sighand_shared h = ground arith

  copy_signal_shared :
      test_bit clone_thread flags ≡ true
      → copy_signal host current flags counts ≡ (pos 0, (current.signal, counts))
  unfolding copy_signal
  copy_signal_shared h = ground arith

  copy_mm_shared :
      (mm : ℕ)
      → current.mm ≡ some mm
      → test_bit clone_vm flags ≡ true
      → copy_mm host current flags counts ≡ (pos 0, (some mm, increment mm counts))
  unfolding copy_mm
  copy_mm_shared mm has h = ground arith

-- The parts of a `copy_process` that succeeds.
pub copy_process_ok :
    (host : ForkHost) (current p : Process) (args : KernelCloneArgs) (w w' : References)
    → copy_process host current args w ≡ (ok p, w')
    → let (ret, c) = copy_resources host.allocators current args.flags args.no_files w in
      (clone_flags_check host args.flags ≡ pos 0)
      × (ret ≡ pos 0)
      × (p ≡ new_process host current args (result_value host.alloc_pid) c)
      × (w' ≡ count_fork current p c.refs)
unfolding copy_process
copy_process_ok host current p args w w' run = ground arith

pub copy_resources_ok :
    (host : Allocators) (current : Process) (flags : ℕ) (no_files : Bool) (w : References)
    → let (ret, c) = copy_resources host current flags no_files w in
      let fs = copy_fs host current flags w.fs_users in
      let sighand = copy_sighand host current flags w.sighand_count in
      let signal = copy_signal host current flags w.group_threads in
      let mm = copy_mm host current flags w.mm_users in
      ret ≡ pos 0
      → ((fs.0 ≡ pos 0) × (sighand.0 ≡ pos 0) × (signal.0 ≡ pos 0) × (mm.0 ≡ pos 0))
        × (fs.1 ≡ (c.fs, c.refs.fs_users))
        × (sighand.1 ≡ (c.sighand, c.refs.sighand_count))
        × (signal.1 ≡ (c.signal, c.refs.group_threads))
        × (mm.1 ≡ (c.mm, c.refs.mm_users))
        × (c.refs.nr_threads ≡ w.nr_threads)
        × (c.refs.total_forks ≡ w.total_forks)
unfolding copy_resources
copy_resources_ok host current flags no_files w h = ground arith

-- Who a new thread is.
pub new_process_thread :
    (host : ForkHost) (current : Process) (args : KernelCloneArgs) (pid : ℕ) (c : Copied)
    → test_bit clone_thread args.flags ≡ true
    → let p = new_process host current args pid c in
      (p.tgid ≡ current.tgid)
      × (p.group_leader ≡ current.group_leader)
      × (p.real_parent ≡ current.real_parent)
      × (p.exit_signal ≡ negsuc 0)
unfolding new_process
new_process_thread host current args pid c thread = ground arith

pub count_fork_thread :
    (current p : Process) (w : References)
    → p.exit_signal ≡ negsuc 0
    → p.pid ≢ 0
    → count_fork current p w ≡ record w {
      group_threads = increment current.signal w.group_threads;
      nr_threads = w.nr_threads + 1;
      total_forks = w.total_forks + 1;
    }
unfolding count_fork
count_fork_thread current p w signal alive = ground arith

-- A `copy_process` with CLONE_THREAD, of a task with an address space, that returns a task with a pid
-- other than 0: the task is in the thread group of the current one, under the same parent, sends no signal
-- at its exit, and uses the same signal handlers, signal struct and address space; each of these has
-- one more user, and there is one more thread and one more fork.
pub copy_process_thread :
    (host : ForkHost) (current p : Process) (args : KernelCloneArgs) (w w' : References) (mm : ℕ)
    → test_bit clone_thread args.flags ≡ true
    → current.mm ≡ some mm
    → copy_process host current args w ≡ (ok p, w')
    → p.pid ≢ 0
    → (p.tgid ≡ current.tgid)
      × (p.group_leader ≡ current.group_leader)
      × (p.real_parent ≡ current.real_parent)
      × (p.exit_signal ≡ negsuc 0)
      × ((p.sighand ≡ current.sighand)
          × (w'.sighand_count p.sighand ≡ w.sighand_count p.sighand + 1))
      × ((p.signal ≡ current.signal) × (w'.group_threads p.signal ≡ w.group_threads p.signal + 1))
      × ((p.mm ≡ some mm) × (w'.mm_users mm ≡ w.mm_users mm + 1))
      × (w'.nr_threads ≡ w.nr_threads + 1)
      × (w'.total_forks ≡ w.total_forks + 1)
unfolding new_process
copy_process_thread host current p args w w' mm thread address_space run alive =
    let (passed, copied, child, final) = copy_process_ok host current p args w w' run in
    let (t_s, s_v, _, _) = clone_flags_check_closed host args.flags passed in
    let rs = copy_resources host.allocators current args.flags args.no_files w in
    let (_, fs, sighand, signal, mem, nr, forks) =
      copy_resources_ok host.allocators current args.flags args.no_files w copied in
    let a3 = copy_sighand_shared host.allocators current args.flags w.sighand_count (t_s thread) in
    let a4 = copy_signal_shared host.allocators current args.flags w.group_threads thread in
    let a5 =
      copy_mm_shared host.allocators current args.flags w.mm_users mm address_space
        (s_v (t_s thread)) in
    let who = new_process_thread host current args (result_value host.alloc_pid) rs.1 thread in
    let counted = count_fork_thread current p rs.1.refs in ground arith
