-- ===== src/MemoryLimits/Refinement.antt =====
-- The system calls on the list refine operations on a finite map from process to limit.
use so2_202003745_vd.Base.{
  ℕ, ◌≡◌, none, some, ℤ, ◌==ℤ◌, inl, inr, is_zero, if◌then◌else◌, ◌&&◌, enter, arith, Option-cases,
}
use so2_202003745_vd.MemoryLimits.{
  State, Kernel, luis_add_memory_limit, luis_update_memory_limit, luis_remove_memory_limit,
  add_memory_limitation_node, find_node_by_pid, removed_limit,
}
use so2_202003745_vd.MemoryLimits.Table.{
  lookup, IsValid, lookup-set_memory_limit, lookup-list_del, set_process_memory_limit-returns_zero,
  nodes-set_process_memory_limit,
}

-- `luis_add_memory_limit`: if the call returns 0, the process gets the limit and every other process keeps its own;
-- on any other return the map is unchanged.
pub lookup-add :
    (k : Kernel) (pid q : ℤ) (limit : ℕ) (s : State)
    → let (ret, s') = enter (luis_add_memory_limit k pid limit) s in
      lookup q s'.nodes ≡ (if is_zero ret && (pid ==ℤ q) then some limit else lookup q s.nodes)
unfolding luis_add_memory_limit add_memory_limitation_node
lookup-add k pid q limit s = elim (Option-cases (k.find_task_by_vpid pid)) [
  | inl no_task ↦ ground arith
  | inr (task, known) ↦ ground (
    arith,
    set_process_memory_limit-returns_zero k task limit s,
    nodes-set_process_memory_limit k task limit s,
  )
]

-- `luis_update_memory_limit`: if the call returns 0, the process gets the limit and every other
-- process keeps its own; on any other return the map is unchanged.
pub lookup-update :
    (k : Kernel) (pid q : ℤ) (limit : ℕ) (s : State)
    → let (ret, s') = enter (luis_update_memory_limit k pid limit) s in
      lookup q s'.nodes ≡ (if is_zero ret && (pid ==ℤ q) then some limit else lookup q s.nodes)
unfolding luis_update_memory_limit
lookup-update k pid q limit s = elim (Option-cases (k.find_task_by_vpid pid)) [
  | inl no_task ↦ ground arith
  | inr (task, known) ↦ elim (Option-cases (find_node_by_pid pid s.nodes)) [
    | inl missing ↦ ground arith
    | inr (node, found) ↦ ground (
      arith,
      set_process_memory_limit-returns_zero k task limit s,
      nodes-set_process_memory_limit k task limit s,
      lookup-set_memory_limit pid q limit node s.nodes,
    )
  ]
]

-- `luis_remove_memory_limit`, on a list that is well formed (no process is named twice): if the call returns 0, the process has
-- no limit on record any more and every other process keeps its own; on any other return the map
-- is unchanged.
pub lookup-remove :
    (k : Kernel) (pid q : ℤ) (s : State)
    → IsValid s.nodes
    → let (ret, s') = enter (luis_remove_memory_limit k pid) s in
      lookup q s'.nodes ≡ (if is_zero ret && (pid ==ℤ q) then none else lookup q s.nodes)
unfolding luis_remove_memory_limit
lookup-remove k pid q s v = elim (Option-cases (k.find_task_by_vpid pid)) [
  | inl no_task ↦ ground arith
  | inr (task, known) ↦ elim (Option-cases (find_node_by_pid pid s.nodes)) [
    | inl missing ↦ ground arith
    | inr (node, found) ↦ ground (
      arith,
      set_process_memory_limit-returns_zero k task removed_limit s,
      nodes-set_process_memory_limit k task removed_limit s,
      lookup-list_del pid q node s.nodes,
    )
  ]
]
