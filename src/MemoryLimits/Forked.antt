-- ===== src/MemoryLimits/Forked.antt =====
-- A limit and the children of the process that has it.
use so2_202003745_vd.Base.{
  ℕ, ◌≡◌, ◌≢◌, false, none, some, ℤ, pos, is_zero, enter, arith, inl, inr, Option-cases, ==ℤ_iff,
}
use so2_202003745_vd.Task.{Task}
use so2_202003745_vd.Rlimit.{rlimit_as}
use so2_202003745_vd.Clone.{test_bit, clone_thread}
use so2_202003745_vd.Clone.Signal.{copy_rlim}
use so2_202003745_vd.MemoryLimits.{State, Kernel, luis_add_memory_limit, luis_remove_memory_limit}
use so2_202003745_vd.MemoryLimits.Table.{lookup, find-lookup}
use so2_202003745_vd.MemoryLimits.Refinement.{lookup-add}
use so2_202003745_vd.MemoryLimits.Applied.{both, add-AppliedTo}

-- the state after a process forks: the list stays as it is
abbrev pub after_fork : ℕ → ℕ → ℕ → State → State
after_fork flags parent child s = record s { machine = copy_rlim flags parent child s.machine }

-- A process that is not on record cannot be released: the call returns no 0 and changes nothing.
remove_unrecorded :
    (k : Kernel) (pid : ℤ) (s : State)
    → lookup pid s.nodes ≡ none
    → ((enter (luis_remove_memory_limit k pid) s).1 ≡ s)
      × (is_zero (enter (luis_remove_memory_limit k pid) s).0 ≡ false)
unfolding luis_remove_memory_limit
remove_unrecorded k pid s absent = elim (Option-cases (k.find_task_by_vpid pid)) [
  | inl gone ↦ ground arith
  | inr (task, known) ↦ ground (arith, find-lookup pid s.nodes)
]

-- Where `luis_add_memory_limit` limits a process, which then forks a process (not a thread) that is not
-- on record, the child has the same soft and hard limit, the parent keeps its own, the child
-- still has no entry in the list, and `luis_remove_memory_limit` on the child, whoever
-- calls, changes nothing and does not return 0.
pub fork_inherits :
    (k k' : Kernel) (pid child_pid : ℤ) (limit flags child : ℕ) (s : State) (task : Task)
    → k.find_task_by_vpid pid ≡ some task
    → (enter (luis_add_memory_limit k pid limit) s).0 ≡ pos 0
    → test_bit clone_thread flags ≡ false
    → child ≢ task.signal
    → child_pid ≢ pid
    → lookup child_pid s.nodes ≡ none
    → let s' = after_fork flags task.signal child (enter (luis_add_memory_limit k pid limit) s).1 in
      (s'.machine.rlim child rlimit_as ≡ both limit)
      × (s'.machine.rlim task.signal rlimit_as ≡ both limit)
      × (lookup child_pid s'.nodes ≡ none)
      × ((enter (luis_remove_memory_limit k' child_pid) s').1 ≡ s')
      × (is_zero (enter (luis_remove_memory_limit k' child_pid) s').0 ≡ false)
unfolding copy_rlim
fork_inherits k k' pid child_pid limit flags child s task known done process fresh other absent =
    let added = (enter (luis_add_memory_limit k pid limit) s).1 in
    let ((here, elsewhere), fits) = add-AppliedTo k pid s task known limit done in
    let unlisted : lookup child_pid added.nodes ≡ none =
      ground (arith, lookup-add k pid child_pid limit s, ==ℤ_iff pid child_pid) in
    let (same, refused) =
      remove_unrecorded k' child_pid (after_fork flags task.signal child added) unlisted in
    (ground (arith, here), ground (arith, here), unlisted, same, refused)
