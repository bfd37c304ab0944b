-- ===== src/MemoryLimits/Table.antt =====
-- The list as a table from process to limit, and what each primitive does to it.
use so2_202003745_vd.Base.{
  returns_zero, ℕ, zero, suc, ◌≡◌, ◌<◌, refl, List, [], ◌∷◌, Option, none, some, is_some, false, ℤ,
  ◌==ℤ◌, ==ℤ_iff, is_nonpos, if◌then◌else◌, arith,
}
use so2_202003745_vd.MemoryLimits.{
  Limitation, State, Kernel, find_node_by_pid, set_memory_limit, list_del, set_process_memory_limit,
}
use so2_202003745_vd.Task.{Task}
use so2_202003745_vd.Rlimit.{rlimit_as}
use so2_202003745_vd.Rlimit.Laws.{do_prlimit-returns_zero}

-- the limit on record for a process
abbrev pub lookup : ℤ → List Limitation → Option ℕ
lookup pid [] = none
lookup pid (entry ∷ rest) = if entry.pid ==ℤ pid then some entry.memory_limit else lookup pid rest

pub find-lookup :
    (pid : ℤ) (l : List Limitation) → is_some (find_node_by_pid pid l) ≡ is_some (lookup pid l)
unfolding find_node_by_pid
find-lookup pid [] = refl
find-lookup pid (entry ∷ rest) = ground (arith, find-lookup pid rest)

pub lookup-set_memory_limit :
    (pid q : ℤ) (limit node : ℕ) (l : List Limitation)
    → find_node_by_pid pid l ≡ some node
    → lookup q (set_memory_limit node limit l) ≡ (if pid ==ℤ q then some limit else lookup q l)
unfolding find_node_by_pid set_memory_limit
lookup-set_memory_limit pid q limit node [] h = ground arith
lookup-set_memory_limit pid q limit zero (entry ∷ rest) h =
    ground (arith, ==ℤ_iff entry.pid pid, ==ℤ_iff entry.pid q, ==ℤ_iff pid q)
lookup-set_memory_limit pid q limit (suc node) (entry ∷ rest) h = ground (
  arith,
  ==ℤ_iff entry.pid pid,
  ==ℤ_iff entry.pid q,
  ==ℤ_iff pid q,
  lookup-set_memory_limit pid q limit node rest,
)

-- Every entry names a positive process and a positive limit, and no process is named twice.
abbrev pub IsValid : List Limitation → Type 0
IsValid [] = Unit {0}
IsValid (entry ∷ rest) =
    (is_nonpos entry.pid ≡ false)
    × (0 < entry.memory_limit)
    × (lookup entry.pid rest ≡ none)
    × IsValid rest

pub lookup-list_del :
    (pid q : ℤ) (node : ℕ) (l : List Limitation)
    → IsValid l
    → find_node_by_pid pid l ≡ some node
    → lookup q (list_del node l) ≡ (if pid ==ℤ q then none else lookup q l)
unfolding find_node_by_pid list_del
lookup-list_del pid q node [] v h = ground arith
lookup-list_del pid q zero (entry ∷ rest) v h =
    ground (arith, ==ℤ_iff entry.pid pid, ==ℤ_iff entry.pid q, ==ℤ_iff pid q)
lookup-list_del pid q (suc node) (entry ∷ rest) v h = ground (
  arith,
  ==ℤ_iff entry.pid pid,
  ==ℤ_iff entry.pid q,
  ==ℤ_iff pid q,
  lookup-list_del pid q node rest v.3,
)

pub set_memory_limit-IsValid :
    (pid : ℤ) (limit node : ℕ) (l : List Limitation)
    → IsValid l
    → find_node_by_pid pid l ≡ some node
    → 0 < limit
    → IsValid (set_memory_limit node limit l)
unfolding find_node_by_pid set_memory_limit
set_memory_limit-IsValid pid limit node [] v h p = ground arith
set_memory_limit-IsValid pid limit zero (entry ∷ rest) v h p = ground arith
set_memory_limit-IsValid pid limit (suc node) (entry ∷ rest) v h p = ground (
  arith,
  ==ℤ_iff entry.pid pid,
  ==ℤ_iff pid entry.pid,
  set_memory_limit-IsValid pid limit node rest v.3,
  lookup-set_memory_limit pid entry.pid limit node rest,
)

pub list_del-IsValid :
    (pid : ℤ) (node : ℕ) (l : List Limitation)
    → IsValid l
    → find_node_by_pid pid l ≡ some node
    → IsValid (list_del node l)
unfolding find_node_by_pid list_del
list_del-IsValid pid node [] v h = ground arith
list_del-IsValid pid zero (entry ∷ rest) v h = ground arith
list_del-IsValid pid (suc node) (entry ∷ rest) v h = ground (
  arith,
  ==ℤ_iff entry.pid pid,
  ==ℤ_iff pid entry.pid,
  list_del-IsValid pid node rest v.3,
  lookup-list_del pid entry.pid node rest v.3,
)

-- A limit that is refused makes the call return a number other than 0.
pub set_process_memory_limit-returns_zero :
    (k : Kernel) (task : Task) (limit : ℕ) (s : State)
    → returns_zero (set_process_memory_limit k task limit s).0 ≡ false
unfolding set_process_memory_limit
set_process_memory_limit-returns_zero k task limit s = ground (
  arith,
  do_prlimit-returns_zero k.host task rlimit_as
      (some (record { rlim_cur = limit; rlim_max = limit })) s.machine,
)

-- Setting a limit leaves the list alone.
pub nodes-set_process_memory_limit :
    (k : Kernel) (task : Task) (limit : ℕ) (s : State)
    → (set_process_memory_limit k task limit s).1.nodes ≡ s.nodes
unfolding set_process_memory_limit
nodes-set_process_memory_limit k task limit s = refl
