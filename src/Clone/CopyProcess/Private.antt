-- ===== src/Clone/CopyProcess/Private.antt =====
-- What a fork keeps apart: every structure that the flags do not share has one user, the child.
use so2_202003745_vd.Base.{ℕ, ◌+◌, true, false, some, pos, arith, ap, ◌∙◌, ok, ◌≡◌, ◌≢◌, ◌⊎◌, ◌==◌}
use so2_202003745_vd.Clone.{
  Process, References, test_bit, clone_thread, clone_sighand, clone_vm, clone_fs, clone_parent,
}
use so2_202003745_vd.Clone.Resources.{Allocators, copy_fs, copy_sighand, copy_signal, copy_mm}
use so2_202003745_vd.Clone.CopyProcess.{
  ForkHost, KernelCloneArgs, Copied, copy_resources, copy_process, new_process, count_fork,
  result_value,
}
use so2_202003745_vd.Clone.CopyProcess.Threads.{copy_process_ok, copy_resources_ok}

-- The new counts say that the structure at `a` has one user and that at every other address they
-- are what they were.
abbrev pub OneUser : ℕ → (ℕ → ℕ) → (ℕ → ℕ) → Type 0
OneUser a counts counts' = (counts' a ≡ 1) × ((b : ℕ) → ((a == b) ≡ true) ⊎ (counts' b ≡ counts b))

module _ (host : Allocators) (current : Process) (flags : ℕ) (counts : ℕ → ℕ) where
  copy_fs-OneUser :
      test_bit clone_fs flags ≡ false
      → let (ret, (fs, counts')) = copy_fs host current flags counts in
        ret ≡ pos 0 → OneUser fs counts counts'
  unfolding copy_fs
  copy_fs-OneUser h done = (ground arith, λ b. ground arith)

  copy_sighand-OneUser :
      test_bit clone_sighand flags ≡ false
      → let (ret, (sighand, counts')) = copy_sighand host current flags counts in
        ret ≡ pos 0 → OneUser sighand counts counts'
  unfolding copy_sighand
  copy_sighand-OneUser h done = (ground arith, λ b. ground arith)

  copy_signal-OneUser :
      test_bit clone_thread flags ≡ false
      → let (ret, (signal, counts')) = copy_signal host current flags counts in
        ret ≡ pos 0 → OneUser signal counts counts'
  unfolding copy_signal
  copy_signal-OneUser h done = (ground arith, λ b. ground arith)

  copy_mm-OneUser :
      (old : ℕ)
      → current.mm ≡ some old
      → test_bit clone_vm flags ≡ false
      → let (ret, (mm, counts')) = copy_mm host current flags counts in
        ret ≡ pos 0
        → (mm ≡ host.dup_mm) × ((new : ℕ) → host.dup_mm ≡ some new → OneUser new counts counts')
  unfolding copy_mm
  copy_mm-OneUser old has h done = (ground arith, λ new made. (ground arith, λ b. ground arith))

new_process_leader :
    (host : ForkHost) (current : Process) (args : KernelCloneArgs) (pid : ℕ) (c : Copied)
    → test_bit clone_thread args.flags ≡ false
    → test_bit clone_parent args.flags ≡ false
    → let p = new_process host current args pid c in
      (p.pid ≡ pid)
      × (p.tgid ≡ pid)
      × (p.group_leader ≡ p.address)
      × (p.real_parent ≡ current.address)
      × (p.exit_signal ≡ pos args.exit_signal)
unfolding new_process
new_process_leader host current args pid c thread parent = ground arith

count_fork_leader :
    (current p : Process) (w : References) (signal : ℕ)
    → p.exit_signal ≡ pos signal
    → p.pid ≢ 0
    → count_fork current p w
      ≡ record w { nr_threads = w.nr_threads + 1; total_forks = w.total_forks + 1 }
unfolding count_fork
count_fork_leader current p w signal leader alive = ground arith

-- A `copy_process` whose flags share nothing (no CLONE_FS, CLONE_SIGHAND, CLONE_VM, CLONE_THREAD or
-- CLONE_PARENT), of a task with an address space, that returns a task with a pid other than 0:
-- the task leads a thread group of its own under the current task, and its file system
-- information, its signal handlers, its signal struct and its address space have one user, while
-- the counts at all other addresses are what they were; there is one more thread and one more fork.
pub copy_process_private :
    (host : ForkHost) (current p : Process) (args : KernelCloneArgs) (w w' : References)
    (old new : ℕ)
    → test_bit clone_fs args.flags ≡ false
    → test_bit clone_sighand args.flags ≡ false
    → test_bit clone_vm args.flags ≡ false
    → test_bit clone_thread args.flags ≡ false
    → test_bit clone_parent args.flags ≡ false
    → current.mm ≡ some old
    → host.allocators.dup_mm ≡ some new
    → copy_process host current args w ≡ (ok p, w')
    → p.pid ≢ 0
    → ((p.tgid ≡ p.pid) × (p.group_leader ≡ p.address) × (p.real_parent ≡ current.address))
      × OneUser p.fs w.fs_users w'.fs_users
      × OneUser p.sighand w.sighand_count w'.sighand_count
      × OneUser p.signal w.group_threads w'.group_threads
      × ((p.mm ≡ some new) × OneUser new w.mm_users w'.mm_users)
      × (w'.nr_threads ≡ w.nr_threads + 1)
      × (w'.total_forks ≡ w.total_forks + 1)
unfolding new_process
copy_process_private host current p args w w' old new no_fs no_sighand no_vm no_thread no_parent
      address_space made run alive =
    let (passed, copied, child, final) = copy_process_ok host current p args w w' run in
    let rs = copy_resources host.allocators current args.flags args.no_files w in
    let ((d2, d3, d4, d5), fs, sighand, signal, mem, nr, forks) =
      copy_resources_ok host.allocators current args.flags args.no_files w copied in
    let a2 = copy_fs-OneUser host.allocators current args.flags w.fs_users no_fs d2 in
    let a3 =
      copy_sighand-OneUser host.allocators current args.flags w.sighand_count no_sighand d3 in
    let a4 = copy_signal-OneUser host.allocators current args.flags w.group_threads no_thread d4 in
    let a5 =
      copy_mm-OneUser host.allocators current args.flags w.mm_users old address_space no_vm d5 in
    let who =
      new_process_leader host current args (result_value host.alloc_pid) rs.1 no_thread no_parent in
    let one = a5.1 new made in
    let counted =
      final ∙ count_fork_leader current p rs.1.refs args.exit_signal (ground arith) alive in
    (
      ground arith,
      (
        ground arith,
        λ b. ground (arith, a2.1 b, ap (λ q. q.1 b) fs, ap (λ r. r.fs_users b) counted),
      ),
      (
        ground arith,
        λ b. ground (arith, a3.1 b, ap (λ q. q.1 b) sighand, ap (λ r. r.sighand_count b) counted),
      ),
      (
        ground arith,
        λ b. ground (arith, a4.1 b, ap (λ q. q.1 b) signal, ap (λ r. r.group_threads b) counted),
      ),
      (
        ground arith,
        (
          ground (arith, one.0, ap (λ q. q.1 new) mem, ap (λ r. r.mm_users new) counted),
          λ b. ground (arith, one.1 b, ap (λ q. q.1 b) mem, ap (λ r. r.mm_users b) counted),
        ),
      ),
      ground arith,
      ground arith,
    )
