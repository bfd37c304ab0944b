-- ===== src/MemoryLimits/Invariant.antt =====
-- The list stays well formed under any sequence of system calls, by any callers.
use so2_202003745_vd.Base.{ℕ, ◌≡◌, [], ℤ, inl, inr, enter, arith, Option-cases}
use so2_202003745_vd.Rlimit.{Machine}
use so2_202003745_vd.MemoryLimits.{
  State, Kernel, luis_add_memory_limit, luis_update_memory_limit, luis_remove_memory_limit,
  add_memory_limitation_node, set_process_memory_limit, find_node_by_pid,
}
use so2_202003745_vd.MemoryLimits.Table.{
  IsValid, find-lookup, set_memory_limit-IsValid, list_del-IsValid,
}

pub add-IsValid :
    (k : Kernel) (pid : ℤ) (limit : ℕ) (s : State)
    → IsValid s.nodes
    → IsValid (enter (luis_add_memory_limit k pid limit) s).1.nodes
unfolding luis_add_memory_limit add_memory_limitation_node set_process_memory_limit
add-IsValid k pid limit s v = ground (arith, find-lookup pid s.nodes)

pub update-IsValid :
    (k : Kernel) (pid : ℤ) (limit : ℕ) (s : State)
    → IsValid s.nodes
    → IsValid (enter (luis_update_memory_limit k pid limit) s).1.nodes
unfolding luis_update_memory_limit set_process_memory_limit
update-IsValid k pid limit s v = elim (Option-cases (find_node_by_pid pid s.nodes)) [
  | inl missing ↦ ground arith
  | inr (node, found) ↦ ground (arith, set_memory_limit-IsValid pid limit node s.nodes)
]

pub remove-IsValid :
    (k : Kernel) (pid : ℤ) (s : State)
    → IsValid s.nodes
    → IsValid (enter (luis_remove_memory_limit k pid) s).1.nodes
unfolding luis_remove_memory_limit set_process_memory_limit
remove-IsValid k pid s v = elim (Option-cases (find_node_by_pid pid s.nodes)) [
  | inl missing ↦ ground arith
  | inr (node, found) ↦ ground (arith, list_del-IsValid pid node s.nodes)
]

-- One call, whatever the rest of the kernel answers to it; `elsewhere` is all that changes the
-- limits of processes without the list, such as their own `setrlimit`. `luis_get_memory_limits`
-- changes no state.
pub data Step (s t : State) : Type 0 where
  add :
      (k : Kernel) (pid : ℤ) (limit : ℕ)
      → t ≡ (enter (luis_add_memory_limit k pid limit) s).1
      → Step s t
  update :
      (k : Kernel) (pid : ℤ) (limit : ℕ)
      → t ≡ (enter (luis_update_memory_limit k pid limit) s).1
      → Step s t
  remove : (k : Kernel) (pid : ℤ) → t ≡ (enter (luis_remove_memory_limit k pid) s).1 → Step s t
  elsewhere : (m : Machine) → t ≡ record s { machine = m } → Step s t

pub data Reach (s : State) : State → Type 0 where
  here : Reach s s
  next : {t u : State} → Reach s t → Step t u → Reach s u

Step-IsValid : (s t : State) → Step s t → IsValid s.nodes → IsValid t.nodes
Step-IsValid s t (add k pid limit e) v = rw e (add-IsValid k pid limit s v)
Step-IsValid s t (update k pid limit e) v = rw e (update-IsValid k pid limit s v)
Step-IsValid s t (remove k pid e) v = rw e (remove-IsValid k pid s v)
Step-IsValid s t (elsewhere m e) v = rw e v

-- In every state that any sequence of calls reaches from the empty list, each entry names a
-- positive process and a positive limit, and no process is named twice.
pub Reach-IsValid :
    (m : Machine) (t : State) → Reach (record { nodes = []; machine = m }) t → IsValid t.nodes
Reach-IsValid m t here = tt
Reach-IsValid m t (next {t = u} r st) = Step-IsValid u t st (Reach-IsValid m u r)
