-- ===== src/MemoryLimits/Errors.antt =====
-- What the system calls leave behind when they fail, and when they succeed.
use so2_202003745_vd.Base.{
  ℕ, ◌≡◌, ◌≢◌, ◌⊎◌, false, some, ℤ, pos, neg, is_zero, inl, inr, enter, ok, err, Result, refl,
  arith, Option-cases, enomem,
}
use so2_202003745_vd.Task.{Task}
use so2_202003745_vd.Rlimit.{Rlimit, rlimit_as, do_prlimit}
use so2_202003745_vd.Rlimit.Laws.{do_prlimit-err, do_prlimit-returns_zero}
use so2_202003745_vd.MemoryLimits.{
  State, Kernel, luis_add_memory_limit, luis_update_memory_limit, luis_remove_memory_limit,
  add_memory_limitation_node, set_process_memory_limit, removed_limit,
}
use so2_202003745_vd.MemoryLimits.Table.{nodes-set_process_memory_limit}

-- Setting a limit either succeeds, or returns an error other than 0 with the state as it was.
pub set_process_memory_limit-cases :
    (k : Kernel) (task : Task) (limit : ℕ) (s : State)
    → ((set_process_memory_limit k task limit s).0 ≡ ok tt)
      ⊎ ((e : ℤ) × ((set_process_memory_limit k task limit s).0 ≡ err e)
          × (is_zero e ≡ false)
          × ((set_process_memory_limit k task limit s).1 ≡ s))
unfolding set_process_memory_limit
set_process_memory_limit-cases k task limit s =
    split (do_prlimit k.host task rlimit_as (some new) s.machine).0 refl
  where
    new : Rlimit
    new = record { rlim_cur = limit; rlim_max = limit }

    split :
        (r : Result Rlimit)
        → (do_prlimit k.host task rlimit_as (some new) s.machine).0 ≡ r
        → ((set_process_memory_limit k task limit s).0 ≡ ok tt)
          ⊎ ((e : ℤ) × ((set_process_memory_limit k task limit s).0 ≡ err e)
              × (is_zero e ≡ false)
              × ((set_process_memory_limit k task limit s).1 ≡ s))
    split (ok old) h = inl (ground arith)
    split (err e) h = inr (
      e,
      ground arith,
      ground (arith, do_prlimit-returns_zero k.host task rlimit_as (some new) s.machine),
      ground (arith, do_prlimit-err k.host task rlimit_as (some new) s.machine h),
    )

-- `luis_add_memory_limit` is atomic but for one case: if the call returns anything but 0 and -ENOMEM, neither the
-- list nor any limit has changed.
pub add_atomic :
    (k : Kernel) (pid : ℤ) (limit : ℕ) (s : State)
    → (enter (luis_add_memory_limit k pid limit) s).0 ≢ pos 0
    → (enter (luis_add_memory_limit k pid limit) s).0 ≢ neg enomem
    → (enter (luis_add_memory_limit k pid limit) s).1 ≡ s
unfolding luis_add_memory_limit add_memory_limitation_node
add_atomic k pid limit s n m = elim (Option-cases (k.find_task_by_vpid pid)) [
  | inl no_task ↦ ground arith
  | inr (task, known) ↦ ground (
    arith,
    set_process_memory_limit-cases k task limit s,
    nodes-set_process_memory_limit k task limit s,
  )
]

-- `luis_update_memory_limit` is atomic: if the call does not return 0, neither the list nor any limit has changed.
pub update_atomic :
    (k : Kernel) (pid : ℤ) (limit : ℕ) (s : State)
    → (enter (luis_update_memory_limit k pid limit) s).0 ≢ pos 0
    → (enter (luis_update_memory_limit k pid limit) s).1 ≡ s
unfolding luis_update_memory_limit
update_atomic k pid limit s n = elim (Option-cases (k.find_task_by_vpid pid)) [
  | inl no_task ↦ ground arith
  | inr (task, known) ↦ ground (arith, set_process_memory_limit-cases k task limit s)
]

-- `luis_remove_memory_limit` is atomic: if the call does not return 0, neither the list nor any limit has changed.
pub remove_atomic :
    (k : Kernel) (pid : ℤ) (s : State)
    → (enter (luis_remove_memory_limit k pid) s).0 ≢ pos 0
    → (enter (luis_remove_memory_limit k pid) s).1 ≡ s
unfolding luis_remove_memory_limit
remove_atomic k pid s n = elim (Option-cases (k.find_task_by_vpid pid)) [
  | inl no_task ↦ ground arith
  | inr (task, known) ↦ ground (arith, set_process_memory_limit-cases k task removed_limit s)
]
