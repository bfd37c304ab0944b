-- ===== src/MemoryLimits.antt =====
-- The memory limits of processes, Kernel/kernel/fase3/syscall3.c: the list of limited processes and
-- the four system calls on it.
--
-- The source leaves the block of the argument test in `luis_add_memory_limit` open (line 99); the
-- model closes it after the `return`, as the other two calls do.
pub mod Table
pub mod Invariant
pub mod Refinement
pub mod Listing
pub mod Errors
pub mod Applied
pub mod Consistency
pub mod Stale
pub mod Forked
use so2_202003745_vd.Base.{
  ℕ, zero, suc, ◌+◌, ◌*◌, ◌%◌, List, [], ◌∷◌, length, Option, none, some, is_some, Bool, true,
  false, ◌&&◌, ◌||◌, not, ℤ, pos, neg, ltb, leb, ◌==◌, ◌==ℤ◌, is_zero, is_nonpos, if◌then◌else◌,
  Result, Call, ok, err, ◌>>=◌, ◌>>◌, pure, return_if, non_null, gets, modify, check, eperm, esrch,
  enomem, efault, einval, cap_sys_admin, page_size, word,
}
use so2_202003745_vd.Task.{Task}
use so2_202003745_vd.Rlimit.{Rlimit, Machine, Host, do_prlimit, rlimit_as}

-- `struct memory_limitation`
pub record Limitation : Type 0 where
  pub pid : ℤ
  pub memory_limit : ℕ

-- `memory_limitation_head`, from the head on, and the limits of all processes
pub record State : Type 0 where
  pub nodes : List Limitation
  pub machine : Machine

-- What the system calls take from the rest of the kernel; `kmalloc` tells whether the allocation
-- of a node succeeds.
pub record Kernel : Type 0 where
  pub host : Host
  pub find_task_by_vpid : ℤ → Option Task
  pub kmalloc : Bool

abbrev pub after_this : Option ℕ → Option ℕ
after_this none = none
after_this (some i) = some (suc i)

-- `find_node_by_pid`; a pointer to a node is its place in the list
unfoldable pub find_node_by_pid : ℤ → List Limitation → Option ℕ
find_node_by_pid pid [] = none
find_node_by_pid pid (entry ∷ rest) =
    if entry.pid ==ℤ pid then some 0 else after_this (find_node_by_pid pid rest)

-- `node->node.memory_limit = memory_limit`
unfoldable pub set_memory_limit : ℕ → ℕ → List Limitation → List Limitation
set_memory_limit node limit [] = []
set_memory_limit zero limit (entry ∷ rest) = record entry { memory_limit = limit } ∷ rest
set_memory_limit (suc node) limit (entry ∷ rest) = entry ∷ set_memory_limit node limit rest

-- `list_del(&node->list)`
unfoldable pub list_del : ℕ → List Limitation → List Limitation
list_del node [] = []
list_del zero (entry ∷ rest) = rest
list_del (suc node) (entry ∷ rest) = entry ∷ list_del node rest

-- in bytes; a task without address space uses none
unfoldable pub get_process_memory_usage : Task → ℕ
get_process_memory_usage task = elim task.total_vm [
  | none ↦ 0
  | some total_vm ↦ total_vm * page_size % word
]

-- `ok` is a return of 0
unfoldable pub set_process_memory_limit : Kernel → Task → ℕ → Call State (Unit {0})
set_process_memory_limit k task limit s =
    let new_rlimit : Rlimit = record { rlim_cur = limit; rlim_max = limit } in
    let (ret, m) = do_prlimit k.host task rlimit_as (some new_rlimit) s.machine in
    (elim ret [ ok _ ↦ ok tt | err e ↦ err e ], record s { machine = m })

unfoldable pub add_memory_limitation_node : Kernel → ℤ → ℕ → Call State ℤ
add_memory_limitation_node k pid limit = do
  nodes ← gets (λ s. s.nodes)
  return_if (is_some (find_node_by_pid pid nodes)) (neg 101)
  return_if (not k.kmalloc) (neg enomem)
  modify (λ s. record s { nodes = record { pid = pid; memory_limit = limit } ∷ s.nodes })
  pure (pos 0)

unfoldable pub luis_add_memory_limit : Kernel → ℤ → ℕ → Call State ℤ
luis_add_memory_limit k process_pid memory_limit = do
  return_if (not (k.host.capable cap_sys_admin)) (neg eperm)
  return_if (is_nonpos process_pid || (memory_limit == 0)) (neg einval)
  task ← non_null (k.find_task_by_vpid process_pid) (neg esrch)
  nodes ← gets (λ s. s.nodes)
  return_if (is_some (find_node_by_pid process_pid nodes)) (neg 101)
  return_if (ltb memory_limit (get_process_memory_usage task)) (neg 100)
  set_process_memory_limit k task memory_limit
  add_memory_limitation_node k process_pid memory_limit

unfoldable pub luis_update_memory_limit : Kernel → ℤ → ℕ → Call State ℤ
luis_update_memory_limit k process_pid memory_limit = do
  return_if (not (k.host.capable cap_sys_admin)) (neg eperm)
  return_if (is_nonpos process_pid || (memory_limit == 0)) (neg einval)
  task ← non_null (k.find_task_by_vpid process_pid) (neg esrch)
  nodes ← gets (λ s. s.nodes)
  node ← non_null (find_node_by_pid process_pid nodes) (neg 102)
  return_if (ltb memory_limit (get_process_memory_usage task)) (neg 100)
  set_process_memory_limit k task memory_limit
  modify (λ s. record s { nodes = set_memory_limit node memory_limit s.nodes })
  pure (pos 0)

-- `110 * 1024 * 1024`
abbrev pub removed_limit : ℕ
removed_limit = 110 * 1024 * 1024

unfoldable pub luis_remove_memory_limit : Kernel → ℤ → Call State ℤ
luis_remove_memory_limit k process_pid = do
  return_if (not (k.host.capable cap_sys_admin)) (neg eperm)
  return_if (is_nonpos process_pid) (neg einval)
  task ← non_null (k.find_task_by_vpid process_pid) (neg esrch)
  nodes ← gets (λ s. s.nodes)
  node ← non_null (find_node_by_pid process_pid nodes) (neg 102)
  set_process_memory_limit k task removed_limit
  modify (λ s. record s { nodes = list_del node s.nodes })
  pure (pos 0)

-- What `luis_get_memory_limits` takes from the rest of the kernel: the checks of the two user
-- pointers, the allocator, the bytes that `copy_to_user` leaves uncopied, the result of `put_user`.
pub record UserAccess : Type 0 where
  pub buffer_ok : ℕ → Bool
  pub size_ok : Bool
  pub kmalloc_array : ℕ → ℕ → Bool
  pub copy_to_user : ℕ → ℕ
  pub put_user : ℤ

-- What the call has written to user space: the entries, if they were copied in full, and the count.
pub record UserMemory : Type 0 where
  pub processes_buffer : Option (List Limitation)
  pub processes_buffer_size : Option ℕ

-- `sizeof(struct memory_limitation)`
abbrev pub limitation_size : ℕ
limitation_size = 16

-- the loop that fills the kernel's buffer
unfoldable pub fill_buffer : ℕ → ℕ → List Limitation → List Limitation
fill_buffer max_entries count [] = []
fill_buffer max_entries count (entry ∷ rest) =
    if leb max_entries count then [] else entry ∷ fill_buffer max_entries (count + 1) rest

unfoldable pub luis_get_memory_limits : UserAccess → ℕ → List Limitation → Call UserMemory ℤ
luis_get_memory_limits u max_entries nodes = do
  return_if (max_entries == 0) (neg einval)
  return_if (not (u.buffer_ok (max_entries * limitation_size % word)) || not u.size_ok) (neg einval)
  return_if (not (u.kmalloc_array max_entries limitation_size)) (neg enomem)
  entries ← pure (fill_buffer max_entries 0 nodes)
  return_if (not (u.copy_to_user (length entries * limitation_size) == 0)) (neg efault)
  modify (λ m. record m { processes_buffer = some entries })
  return_if (not (is_zero u.put_user)) (neg efault)
  modify (λ m. record m { processes_buffer_size = some (length entries) })
  pure (pos 0)
