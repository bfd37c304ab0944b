-- ===== src/MemoryLimits/Consistency.antt =====
-- The list beside the limits that the processes have, and when the two agree.
use so2_202003745_vd.Base.{
  ℕ, ◌≡◌, ◌∙◌, ap, sym, ◌≢◌, ok, ◌⊎◌, true, false, Option, none, some, List, [], ◌∷◌, ℤ, is_zero,
  ◌==ℤ◌, ==ℤ_iff, ◌&&◌, inl, inr, enter, refl, arith, Option-cases, if◌then◌else◌,
}
use so2_202003745_vd.Task.{Task}
use so2_202003745_vd.Rlimit.{rlimit_as}
use so2_202003745_vd.MemoryLimits.{
  State, Kernel, luis_add_memory_limit, luis_update_memory_limit, luis_remove_memory_limit,
  add_memory_limitation_node, set_process_memory_limit, removed_limit,
}
use so2_202003745_vd.MemoryLimits.Table.{
  lookup, IsValid, find-lookup, nodes-set_process_memory_limit,
}
use so2_202003745_vd.MemoryLimits.Refinement.{lookup-add, lookup-update, lookup-remove}
use so2_202003745_vd.MemoryLimits.Invariant.{add-IsValid, update-IsValid, remove-IsValid}
use so2_202003745_vd.MemoryLimits.Errors.{set_process_memory_limit-cases}
use so2_202003745_vd.MemoryLimits.Applied.{both, AppliedTo, set_process_memory_limit-AppliedTo}

-- For a pid that belongs to no process the three calls change nothing, and removing does not return 0.
pub no_process :
    (k : Kernel) (pid : ℤ) (limit : ℕ) (s : State)
    → k.find_task_by_vpid pid ≡ none
    → ((enter (luis_remove_memory_limit k pid) s).1 ≡ s)
      × ((enter (luis_add_memory_limit k pid limit) s).1 ≡ s)
      × ((enter (luis_update_memory_limit k pid limit) s).1 ≡ s)
      × (is_zero (enter (luis_remove_memory_limit k pid) s).0 ≡ false)
unfolding luis_remove_memory_limit luis_add_memory_limit luis_update_memory_limit
no_process k pid limit s gone = (ground arith, ground arith, ground arith, ground arith)

-- The signal struct, which holds the limits, of the process that a pid stands for.
abbrev pub Signals : Type 0
Signals = ℤ → Option ℕ

-- Every process on record has the limit on record as its soft and hard limit.
abbrev pub Agrees : Signals → State → Type 0
Agrees signals s =
    (q : ℤ) (l g : ℕ)
    → lookup q s.nodes ≡ some l
    → signals q ≡ some g
    → s.machine.rlim g rlimit_as ≡ both l

-- Different pids stand for different processes: none is a thread of another.
abbrev pub Separate : Signals → Type 0
Separate signals = (p q : ℤ) (g g' : ℕ) → signals p ≡ some g → signals q ≡ some g' → p ≢ q → g ≢ g'

-- The processes that a call can find are among these: some may have ended.
abbrev pub Within : Signals → Kernel → Type 0
Within signals k = (q : ℤ) (t : Task) → k.find_task_by_vpid q ≡ some t → signals q ≡ some t.signal

-- One entry changed to what was applied, and the rest as before.
Agrees-after :
    (signals : Signals) (pid : ℤ) (limit : ℕ) (s s' : State) (task : Task)
    → Separate signals
    → Agrees signals s
    → signals pid ≡ some task.signal
    → AppliedTo task limit s.machine s'.machine
    → ((q : ℤ) (l : ℕ)
        → lookup q s'.nodes ≡ some l
        → ((q ≡ pid) × (l ≡ limit)) ⊎ ((q ≢ pid) × (lookup q s.nodes ≡ some l)))
    → Agrees signals s'
Agrees-after signals pid limit s s' task sep agrees known (here, elsewhere) change =
    λ q l g on_record found. elim (change q l on_record) [
      | inl (same, new) ↦ ground (arith, here)
      | inr (other, old) ↦
          elsewhere g rlimit_as (inl (sep q pid g task.signal found known other))
          ∙ agrees q l g old found
    ]

-- A call either leaves the state alone, or has set the limit of the task; in the second case it
-- returned 0, or the task is not on record and the list is as before.
abbrev Sets : Kernel → Task → ℤ → ℕ → State → ℤ × State → Type 0
Sets k task pid limit s (ret, s') =
    (s' ≡ s)
    ⊎ (((set_process_memory_limit k task limit s).0 ≡ ok tt)
        × (s'.machine ≡ (set_process_memory_limit k task limit s).1.machine)
        × ((is_zero ret ≡ true) ⊎ ((lookup pid s.nodes ≡ none) × (s'.nodes ≡ s.nodes))))

module _ (k : Kernel) (pid : ℤ) (s : State) (task : Task)
    (known : k.find_task_by_vpid pid ≡ some task) where
  add-Sets : (limit : ℕ) → Sets k task pid limit s (enter (luis_add_memory_limit k pid limit) s)
  unfolding luis_add_memory_limit add_memory_limitation_node
  add-Sets limit = ground (
    arith,
    set_process_memory_limit-cases k task limit s,
    nodes-set_process_memory_limit k task limit s,
    find-lookup pid s.nodes,
  )

  update-Sets :
      (limit : ℕ) → Sets k task pid limit s (enter (luis_update_memory_limit k pid limit) s)
  unfolding luis_update_memory_limit
  update-Sets limit = ground (arith, set_process_memory_limit-cases k task limit s)

  remove-Sets : Sets k task pid removed_limit s (enter (luis_remove_memory_limit k pid) s)
  unfolding luis_remove_memory_limit
  remove-Sets = ground (arith, set_process_memory_limit-cases k task removed_limit s)

-- Agreement survives a call whose list follows the map: the entry of `pid` becomes `entry`, which
-- is none or the limit that was set, if the call returned 0.
Sets-Agrees :
    (signals : Signals) (k : Kernel) (pid : ℤ) (limit : ℕ) (entry : Option ℕ) (s : State)
    (after : ℤ × State) (task : Task)
    → Separate signals
    → Agrees signals s
    → signals pid ≡ some task.signal
    → (entry ≡ none) ⊎ (entry ≡ some limit)
    → ((q : ℤ)
        → lookup q after.1.nodes
          ≡ (if is_zero after.0 && (pid ==ℤ q) then entry else lookup q s.nodes))
    → Sets k task pid limit s after
    → Agrees signals after.1
Sets-Agrees signals k pid limit entry s (ret, s') task sep agrees known shape map (inl same) =
    rw same agrees
Sets-Agrees signals k pid limit entry s (ret, s') task sep agrees known shape map
      (inr (done, m, how)) =
    Agrees-after signals pid limit s s' task sep agrees known
      (rw m (set_process_memory_limit-AppliedTo k task limit s done))
      (λ q l e. change q l e (map q) how)
  where
    change :
        (q : ℤ) (l : ℕ)
        → lookup q s'.nodes ≡ some l
        → lookup q s'.nodes ≡ (if is_zero ret && (pid ==ℤ q) then entry else lookup q s.nodes)
        → (is_zero ret ≡ true) ⊎ ((lookup pid s.nodes ≡ none) × (s'.nodes ≡ s.nodes))
        → ((q ≡ pid) × (l ≡ limit)) ⊎ ((q ≢ pid) × (lookup q s.nodes ≡ some l))
    change q l e m' (inl zero_returned) = ground (arith, ==ℤ_iff pid q, shape)
    change q l e m' (inr (absent, same)) = inr (
      (λ p. cc (absent, e, ap (λ n. lookup q n) same, ap (λ r. lookup r s.nodes) p)),
      sym (ap (λ n. lookup q n) same) ∙ e,
    )

module _ (signals : Signals) (k : Kernel) (sep : Separate signals) (within : Within signals k) where
  -- Adding keeps the list and the limits in agreement, whatever the call returns.
  pub add-Agrees :
      (pid : ℤ) (limit : ℕ) (s : State)
      → Agrees signals s
      → Agrees signals (enter (luis_add_memory_limit k pid limit) s).1
  add-Agrees pid limit s agrees = elim (Option-cases (k.find_task_by_vpid pid)) [
    | inl gone ↦ rw (no_process k pid limit s gone).1 agrees
    | inr (task, known) ↦
        Sets-Agrees signals k pid limit (some limit) s (enter (luis_add_memory_limit k pid limit) s)
          task sep agrees (within pid task known) (inr refl) (λ q. lookup-add k pid q limit s)
          (add-Sets k pid s task known limit)
  ]

  -- So does updating.
  pub update-Agrees :
      (pid : ℤ) (limit : ℕ) (s : State)
      → Agrees signals s
      → Agrees signals (enter (luis_update_memory_limit k pid limit) s).1
  update-Agrees pid limit s agrees = elim (Option-cases (k.find_task_by_vpid pid)) [
    | inl gone ↦ rw (no_process k pid limit s gone).2 agrees
    | inr (task, known) ↦
        Sets-Agrees signals k pid limit (some limit) s
          (enter (luis_update_memory_limit k pid limit) s) task sep agrees (within pid task known)
          (inr refl) (λ q. lookup-update k pid q limit s) (update-Sets k pid s task known limit)
  ]

  -- So does removing, from a well-formed list.
  pub remove-Agrees :
      (pid : ℤ) (s : State)
      → IsValid s.nodes
      → Agrees signals s
      → Agrees signals (enter (luis_remove_memory_limit k pid) s).1
  remove-Agrees pid s v agrees = elim (Option-cases (k.find_task_by_vpid pid)) [
    | inl gone ↦ rw (no_process k pid 0 s gone).0 agrees
    | inr (task, known) ↦
        Sets-Agrees signals k pid removed_limit none s (enter (luis_remove_memory_limit k pid) s)
          task sep agrees (within pid task known) (inl refl) (λ q. lookup-remove k pid q s v)
          (remove-Sets k pid s task known)
  ]

-- One system call that changes the list.
pub data Request : Type 0 where
  add update : ℤ → ℕ → Request
  remove : ℤ → Request

unfoldable pub serve : Kernel → Request → State → State
serve k (add pid limit) s = (enter (luis_add_memory_limit k pid limit) s).1
serve k (update pid limit) s = (enter (luis_update_memory_limit k pid limit) s).1
serve k (remove pid) s = (enter (luis_remove_memory_limit k pid) s).1

-- Calls in a row, each with what it finds the rest of the kernel to be: its caller, the processes and
-- their memory, and whether there is memory for a node.
unfoldable pub run : List (Kernel × Request) → State → State
run [] s = s
run ((k, r) ∷ rs) s = run rs (serve k r s)

pub serve-IsValid :
    (k : Kernel) (r : Request) (s : State) → IsValid s.nodes → IsValid (serve k r s).nodes
unfolding serve
serve-IsValid k (add pid limit) s v = add-IsValid k pid limit s v
serve-IsValid k (update pid limit) s v = update-IsValid k pid limit s v
serve-IsValid k (remove pid) s v = remove-IsValid k pid s v

serve-Agrees :
    (signals : Signals) (k : Kernel) (r : Request) (s : State)
    → Separate signals
    → Within signals k
    → IsValid s.nodes
    → Agrees signals s
    → Agrees signals (serve k r s)
unfolding serve
serve-Agrees signals k (add pid limit) s sep within v agrees =
    add-Agrees signals k sep within pid limit s agrees
serve-Agrees signals k (update pid limit) s sep within v agrees =
    update-Agrees signals k sep within pid limit s agrees
serve-Agrees signals k (remove pid) s sep within v agrees =
    remove-Agrees signals k sep within pid s v agrees

abbrev pub AllWithin : Signals → List (Kernel × Request) → Type 0
AllWithin signals [] = Unit {0}
AllWithin signals ((k, r) ∷ rs) = Within signals k × AllWithin signals rs

-- Where different pids stand for different processes, any sequence of calls that change the list, by any
-- callers and whatever they return, keeps the list well formed and in agreement with the limits of the
-- processes, as long as no process but these is found; processes may end meanwhile.
pub run-Agrees :
    (signals : Signals) (rs : List (Kernel × Request)) (s : State)
    → Separate signals
    → AllWithin signals rs
    → IsValid s.nodes
    → Agrees signals s
    → IsValid (run rs s).nodes × Agrees signals (run rs s)
unfolding run
run-Agrees signals [] s sep within v agrees = (v, agrees)
run-Agrees signals ((k, r) ∷ rs) s sep (first, later) v agrees =
    run-Agrees signals rs (serve k r s) sep later (serve-IsValid k r s v)
      (serve-Agrees signals k r s sep first v agrees)
