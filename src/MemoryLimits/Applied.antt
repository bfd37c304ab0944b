-- ===== src/MemoryLimits/Applied.antt =====
-- The limits that processes really have, beside the list.
use so2_202003745_vd.Base.{
  ◌*◌, ℕ, ◌≡◌, ◌≢◌, ◌≤◌, ◌<◌, ◌↔◌, ◌⊎◌, true, false, none, some, ℤ, pos, is_nonpos, enter, ok, err,
  Result, refl, arith, cap_sys_admin, cap_sys_resource, neg, enomem,
}
use so2_202003745_vd.Task.{Task}
use so2_202003745_vd.Rlimit.{Rlimit, Machine, rlimit_as, do_prlimit}
use so2_202003745_vd.Rlimit.Laws.{do_prlimit-ok}
use so2_202003745_vd.MemoryLimits.{
  State, Kernel, luis_add_memory_limit, luis_update_memory_limit, luis_remove_memory_limit,
  add_memory_limitation_node, set_process_memory_limit, get_process_memory_usage, removed_limit,
}
use so2_202003745_vd.MemoryLimits.Table.{lookup, find-lookup, set_process_memory_limit-returns_zero}

abbrev pub both : ℕ → Rlimit
both limit = record { rlim_cur = limit; rlim_max = limit }

-- Only the address space limit of the task's signal struct changes, to `limit`.
abbrev pub AppliedTo : Task → ℕ → Machine → Machine → Type 0
AppliedTo task limit m m' =
    (m'.rlim task.signal rlimit_as ≡ both limit)
    × ((s r : ℕ) → (s ≢ task.signal) ⊎ (r ≢ rlimit_as) → m'.rlim s r ≡ m.rlim s r)

pub set_process_memory_limit-AppliedTo :
    (k : Kernel) (task : Task) (limit : ℕ) (s : State)
    → (set_process_memory_limit k task limit s).0 ≡ ok tt
    → AppliedTo task limit s.machine (set_process_memory_limit k task limit s).1.machine
unfolding set_process_memory_limit
set_process_memory_limit-AppliedTo k task limit s h =
    split (do_prlimit k.host task rlimit_as (some (both limit)) s.machine).0 refl
  where
    split :
        (r : Result Rlimit)
        → (do_prlimit k.host task rlimit_as (some (both limit)) s.machine).0 ≡ r
        → AppliedTo task limit s.machine (set_process_memory_limit k task limit s).1.machine
    split (ok old) e =
        let (_, written, kept) = do_prlimit-ok k.host task rlimit_as (both limit) s.machine e in
        (written, kept)
    split (err e) h' = absurd (ground arith)

module _ (k : Kernel) (pid : ℤ) (s : State) (task : Task)
    (known : k.find_task_by_vpid pid ≡ some task) where
  -- What each call that returns 0 has done to the limits is what setting the limit did.
  add-ok :
      (limit : ℕ)
      → (enter (luis_add_memory_limit k pid limit) s).0 ≡ pos 0
      → ((set_process_memory_limit k task limit s).0 ≡ ok tt)
        × ((enter (luis_add_memory_limit k pid limit) s).1.machine
            ≡ (set_process_memory_limit k task limit s).1.machine)
        × (get_process_memory_usage task ≤ limit)
  unfolding luis_add_memory_limit add_memory_limitation_node
  add-ok limit h = ground (arith, set_process_memory_limit-returns_zero k task limit s)

  update-ok :
      (limit : ℕ)
      → (enter (luis_update_memory_limit k pid limit) s).0 ≡ pos 0
      → ((set_process_memory_limit k task limit s).0 ≡ ok tt)
        × ((enter (luis_update_memory_limit k pid limit) s).1.machine
            ≡ (set_process_memory_limit k task limit s).1.machine)
        × (get_process_memory_usage task ≤ limit)
  unfolding luis_update_memory_limit
  update-ok limit h = ground (arith, set_process_memory_limit-returns_zero k task limit s)

  remove-ok :
      (enter (luis_remove_memory_limit k pid) s).0 ≡ pos 0
      → ((set_process_memory_limit k task removed_limit s).0 ≡ ok tt)
        × ((enter (luis_remove_memory_limit k pid) s).1.machine
            ≡ (set_process_memory_limit k task removed_limit s).1.machine)
  unfolding luis_remove_memory_limit
  remove-ok h = ground (arith, set_process_memory_limit-returns_zero k task removed_limit s)

  -- A call of `luis_add_memory_limit` that returns 0 has put the limit on the process, both soft and
  -- hard, and changed no other limit; the process used no more than that when it was tested.
  pub add-AppliedTo :
      (limit : ℕ)
      → (enter (luis_add_memory_limit k pid limit) s).0 ≡ pos 0
      → AppliedTo task limit s.machine (enter (luis_add_memory_limit k pid limit) s).1.machine
        × (get_process_memory_usage task ≤ limit)
  add-AppliedTo limit h =
      let (done, same, fits) = add-ok limit h in
      (rw same (set_process_memory_limit-AppliedTo k task limit s done), fits)

  -- A call of `luis_update_memory_limit` that returns 0 has put the limit on the process, both soft
  -- and hard, and changed no other limit; the process used no more than that when it was tested.
  pub update-AppliedTo :
      (limit : ℕ)
      → (enter (luis_update_memory_limit k pid limit) s).0 ≡ pos 0
      → AppliedTo task limit s.machine (enter (luis_update_memory_limit k pid limit) s).1.machine
        × (get_process_memory_usage task ≤ limit)
  update-AppliedTo limit h =
      let (done, same, fits) = update-ok limit h in
      (rw same (set_process_memory_limit-AppliedTo k task limit s done), fits)

  -- A call of `luis_remove_memory_limit` that returns 0 does not lift the limit of the process: it
  -- leaves it with a hard and soft limit of 110 MiB of address space.
  pub remove-AppliedTo :
      (enter (luis_remove_memory_limit k pid) s).0 ≡ pos 0
      → AppliedTo task
          (110 * 1024 * 1024)
          s.machine
          (enter (luis_remove_memory_limit k pid) s).1.machine
  remove-AppliedTo h =
      let (done, same) = remove-ok h in
      rw same (set_process_memory_limit-AppliedTo k task removed_limit s done)

-- The conditions under which `luis_add_memory_limit` takes a limit.
abbrev pub Addable : Kernel → ℤ → ℕ → State → Task → Type 0
Addable k pid limit s task =
    (k.host.capable cap_sys_admin ≡ true)
    × (is_nonpos pid ≡ false)
    × (0 < limit)
    × (lookup pid s.nodes ≡ none)
    × (get_process_memory_usage task ≤ limit)
    × (k.kmalloc ≡ true)
    × ((limit ≤ (s.machine.rlim task.signal rlimit_as).rlim_max)
        ⊎ (k.host.capable cap_sys_resource ≡ true))
    × (k.host.security_task_setrlimit task rlimit_as (both limit) ≡ pos 0)

-- For a process that exists, `luis_add_memory_limit` returns 0 exactly under these conditions: the caller is an
-- administrator, pid and limit are positive, the process is not on record, it uses no more than the
-- limit, a node can be allocated, the limit does not exceed the process's hard limit (or the caller
-- has CAP_SYS_RESOURCE), and the security module does not object.
pub add-Addable :
    (k : Kernel) (pid : ℤ) (limit : ℕ) (s : State) (task : Task)
    → k.find_task_by_vpid pid ≡ some task
    → ((enter (luis_add_memory_limit k pid limit) s).0 ≡ pos 0) ↔ Addable k pid limit s task
unfolding luis_add_memory_limit add_memory_limitation_node set_process_memory_limit do_prlimit
add-Addable k pid limit s task known =
    (λ h. ground (arith, find-lookup pid s.nodes), λ a. ground (arith, find-lookup pid s.nodes))

-- Where all but the allocation of the node goes well, `luis_add_memory_limit` returns -ENOMEM and
-- leaves the process with the new limit, soft and hard, and without an entry in the list.
pub add_no_memory :
    (k : Kernel) (pid : ℤ) (limit : ℕ) (s : State) (task : Task)
    → k.find_task_by_vpid pid ≡ some task
    → k.kmalloc ≡ false
    → Addable (record k { kmalloc = true }) pid limit s task
    → let (ret, s') = enter (luis_add_memory_limit k pid limit) s in
      (ret ≡ neg enomem)
      × (s'.nodes ≡ s.nodes)
      × (lookup pid s'.nodes ≡ none)
      × (s'.machine.rlim task.signal rlimit_as ≡ both limit)
unfolding luis_add_memory_limit add_memory_limitation_node set_process_memory_limit do_prlimit
add_no_memory k pid limit s task known no_memory a = (
  ground (arith, find-lookup pid s.nodes),
  ground (arith, find-lookup pid s.nodes),
  ground (arith, find-lookup pid s.nodes),
  ground (arith, find-lookup pid s.nodes),
)
