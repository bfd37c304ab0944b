-- ===== src/MemoryLimits/Stale.antt =====
-- What becomes of an entry whose process has ended.
use so2_202003745_vd.Base.{
  ℕ, ◌≡◌, ◌∙◌, false, none, some, List, [], ◌∷◌, ℤ, is_zero, ==ℤ_iff, enter, arith,
}
use so2_202003745_vd.MemoryLimits.{State, Kernel, luis_add_memory_limit}
use so2_202003745_vd.MemoryLimits.Table.{lookup, IsValid, find-lookup}
use so2_202003745_vd.MemoryLimits.Refinement.{lookup-add, lookup-update, lookup-remove}
use so2_202003745_vd.MemoryLimits.Consistency.{
  Request, add, update, remove, serve, run, serve-IsValid, no_process,
}

-- No process has the pid during any of the calls.
abbrev pub GoneDuring : ℤ → List (Kernel × Request) → Type 0
GoneDuring pid [] = Unit {0}
GoneDuring pid ((k, r) ∷ rs) = (k.find_task_by_vpid pid ≡ none) × GoneDuring pid rs

-- A call leaves the entry of a pid without a process, also a call about another pid.
serve_leaves :
    (k : Kernel) (r : Request) (pid : ℤ) (s : State)
    → IsValid s.nodes
    → k.find_task_by_vpid pid ≡ none
    → lookup pid (serve k r s).nodes ≡ lookup pid s.nodes
unfolding serve
serve_leaves k (add p limit) pid s v gone =
    ground (arith, ==ℤ_iff p pid, no_process k pid limit s gone, lookup-add k p pid limit s)
serve_leaves k (update p limit) pid s v gone =
    ground (arith, ==ℤ_iff p pid, no_process k pid limit s gone, lookup-update k p pid limit s)
serve_leaves k (remove p) pid s v gone =
    ground (arith, ==ℤ_iff p pid, no_process k pid 0 s gone, lookup-remove k p pid s v)

-- A pid on record cannot be added.
listed_refused :
    (k : Kernel) (pid : ℤ) (limit l : ℕ) (s : State)
    → lookup pid s.nodes ≡ some l
    → is_zero (enter (luis_add_memory_limit k pid limit) s).0 ≡ false
unfolding luis_add_memory_limit
listed_refused k pid limit l s listed = ground (arith, find-lookup pid s.nodes)

-- An entry of a process that has ended outlives any sequence of calls during which no process has its
-- pid, whoever makes them and whatever processes they are about, and none of them can remove it. A new
-- process that gets the pid after that cannot be added to the list, by whatever caller.
pub stale_entry :
    (rs : List (Kernel × Request)) (pid : ℤ) (l limit : ℕ) (s : State) (k : Kernel)
    → IsValid s.nodes
    → lookup pid s.nodes ≡ some l
    → GoneDuring pid rs
    → (lookup pid (run rs s).nodes ≡ some l)
      × (is_zero (enter (luis_add_memory_limit k pid limit) (run rs s)).0 ≡ false)
unfolding run
stale_entry [] pid l limit s k v listed gone = (listed, listed_refused k pid limit l s listed)
stale_entry ((k', r) ∷ rs) pid l limit s k v listed (now, later) =
    stale_entry rs pid l limit (serve k' r s) k (serve-IsValid k' r s v)
      (serve_leaves k' r pid s v now ∙ listed) later
