-- ===== src/Examples/MemoryLimits.antt =====
-- Runs of the system calls on memory limits: an administrator, two processes, one of them limited.
use so2_202003745_vd.Base.{
  ℕ, ◌*◌, ◌≡◌, ◌≤◌, ◌↔◌, refl, List, [], ◌∷◌, Option, none, some, true, false, ℤ, pos, neg, ◌==ℤ◌,
  ==ℤ_iff, is_zero, if◌then◌else◌, enter, arith, enomem,
}
use so2_202003745_vd.Task.{Cred, Task}
use so2_202003745_vd.Rlimit.{Machine, Host, do_prlimit, rlimit_as, store, rlim_infinity}
use so2_202003745_vd.Clone.{test_bit, clone_thread}
use so2_202003745_vd.MemoryLimits.{
  State, Kernel, UserAccess, UserMemory, luis_add_memory_limit, luis_update_memory_limit,
  luis_remove_memory_limit, luis_get_memory_limits, add_memory_limitation_node, find_node_by_pid,
  set_process_memory_limit, get_process_memory_usage, fill_buffer,
}
use so2_202003745_vd.MemoryLimits.Table.{lookup, IsValid}
use so2_202003745_vd.MemoryLimits.Invariant.{here, next, add, remove, Reach-IsValid}
use so2_202003745_vd.MemoryLimits.Refinement.{lookup-add, lookup-update, lookup-remove}
use so2_202003745_vd.MemoryLimits.Listing.{get_writes_prefix}
use so2_202003745_vd.MemoryLimits.Errors.{add_atomic}
use so2_202003745_vd.MemoryLimits.Applied.{both, Addable, add-Addable, add_no_memory}
use so2_202003745_vd.MemoryLimits.Forked.{after_fork, fork_inherits}
use so2_202003745_vd.MemoryLimits.Consistency.{
  Agrees, Separate, Within, Signals, Request, run, run-Agrees,
}
use so2_202003745_vd.MemoryLimits.Stale.{stale_entry}

abbrev user_cred : Cred
user_cred = record {
  uid = 1000;
  gid = 1000;
  suid = 1000;
  sgid = 1000;
  euid = 1000;
  egid = 1000;
  fsuid = 1000;
  fsgid = 1000;
  user = 1;
  ucounts = 1;
  user_ns = 0;
}

-- The processes use 1 MiB and 2 MiB.
abbrev editor : Task
editor = record {
  address = 70;
  signal = 7;
  group_leader = 70;
  total_vm = some 256;
  cred = user_cred;
}

abbrev server : Task
server = record {
  address = 80;
  signal = 8;
  group_leader = 80;
  total_vm = some 512;
  cred = user_cred;
}

abbrev find : ℤ → Option Task
find pid = if pid ==ℤ pos 7 then some editor else if pid ==ℤ pos 8 then some server else none

abbrev admin_host : Host
admin_host = record {
  capable = λ c. true;
  security_task_setrlimit = λ t r n. pos 0;
  sysctl_nr_open = 1048576;
  posix_timers = true;
}

abbrev kernel : Kernel
kernel = record { host = admin_host; find_task_by_vpid = find; kmalloc = true }

abbrev full_kernel : Kernel
full_kernel = record kernel { kmalloc = false }

abbrev mib : ℕ
mib = 1048576

abbrev fresh : Machine
fresh = record {
  rlim = λ s r. record { rlim_cur = rlim_infinity; rlim_max = rlim_infinity };
  cpu_timers = [];
}

abbrev empty : State
empty = record { nodes = []; machine = fresh }

-- the state after `luis_add_memory_limit(7, 4 MiB)`
abbrev limited : State
limited = record {
  nodes = record { pid = pos 7; memory_limit = 4 * mib } ∷ [];
  machine = store 7 rlimit_as (both (4 * mib)) fresh;
}

abbrev stale : State
stale = record limited { nodes = record { pid = pos 9; memory_limit = mib } ∷ [] }

limited-IsValid : IsValid limited.nodes
limited-IsValid = ground arith

stale-IsValid : IsValid stale.nodes
stale-IsValid = ground arith

abbrev after_three : State
after_three =
    (enter (luis_remove_memory_limit kernel (pos 7))
      (enter (luis_add_memory_limit kernel (pos 8) (3 * mib))
        (enter (luis_add_memory_limit kernel (pos 7) (4 * mib)) empty).1).1).1

Reach-IsValid_example : IsValid after_three.nodes
Reach-IsValid_example = Reach-IsValid fresh after_three (
    next (next (next here (add kernel (pos 7) (4 * mib) refl)) (add kernel (pos 8) (3 * mib) refl))
      (remove kernel (pos 7) refl))

lookup-add_example :
    lookup (pos 8) (enter (luis_add_memory_limit kernel (pos 8) (3 * mib)) limited).1.nodes
    ≡ some (3 * mib)
unfolding luis_add_memory_limit find_node_by_pid get_process_memory_usage set_process_memory_limit
    do_prlimit add_memory_limitation_node
lookup-add_example = lookup-add kernel (pos 8) (pos 8) (3 * mib) limited

lookup-update_example :
    lookup (pos 7) (enter (luis_update_memory_limit kernel (pos 7) (3 * mib)) limited).1.nodes
    ≡ some (3 * mib)
unfolding luis_update_memory_limit find_node_by_pid get_process_memory_usage
    set_process_memory_limit do_prlimit
lookup-update_example = lookup-update kernel (pos 7) (pos 7) (3 * mib) limited

lookup-remove_example :
    lookup (pos 7) (enter (luis_remove_memory_limit kernel (pos 7)) limited).1.nodes ≡ none
unfolding luis_remove_memory_limit find_node_by_pid set_process_memory_limit do_prlimit
lookup-remove_example = lookup-remove kernel (pos 7) (pos 7) limited limited-IsValid

abbrev signals : Signals
signals pid = if pid ==ℤ pos 7 then some 7 else if pid ==ℤ pos 8 then some 8 else none

signals-Separate : Separate signals
signals-Separate p q g g' gp gq n =
    ground (arith, ==ℤ_iff p (pos 7), ==ℤ_iff p (pos 8), ==ℤ_iff q (pos 7), ==ℤ_iff q (pos 8))

limited-Agrees : Agrees signals limited
limited-Agrees q l g e f = ground (arith, ==ℤ_iff (pos 7) q, ==ℤ_iff q (pos 7), ==ℤ_iff q (pos 8))

kernel-Within : Within signals kernel
kernel-Within q t found = ground (arith, ==ℤ_iff q (pos 7), ==ℤ_iff q (pos 8))

-- The process 7 has ended.
abbrev later_kernel : Kernel
later_kernel = record kernel {
  find_task_by_vpid = λ pid. if pid ==ℤ pos 8 then some server else none;
}

later_kernel-Within : Within signals later_kernel
later_kernel-Within q t found = ground (arith, ==ℤ_iff q (pos 7), ==ℤ_iff q (pos 8))

-- The first call fails for want of memory, the last as its process has ended.
abbrev session : List (Kernel × Request)
session =
    (full_kernel, Request.add (pos 8) (3 * mib))
    ∷ (kernel, Request.add (pos 8) (3 * mib))
    ∷ (kernel, Request.update (pos 8) (5 * mib))
    ∷ (later_kernel, Request.remove (pos 7))
    ∷ []

run-Agrees_example : IsValid (run session limited).nodes × Agrees signals (run session limited)
run-Agrees_example =
    run-Agrees signals session limited signals-Separate
      (kernel-Within, (kernel-Within, (kernel-Within, (later_kernel-Within, tt)))) limited-IsValid
      limited-Agrees

add-Addable_example :
    ((enter (luis_add_memory_limit kernel (pos 8) mib) limited).0 ≡ pos 0)
    ↔ Addable kernel (pos 8) mib limited server
add-Addable_example = add-Addable kernel (pos 8) mib limited server refl

adds_8 : (enter (luis_add_memory_limit kernel (pos 8) (3 * mib)) empty).0 ≡ pos 0
unfolding luis_add_memory_limit find_node_by_pid get_process_memory_usage set_process_memory_limit
    do_prlimit add_memory_limitation_node
adds_8 = refl

abbrev forked : State
forked = after_fork 0 8 9 (enter (luis_add_memory_limit kernel (pos 8) (3 * mib)) empty).1

no_thread : test_bit clone_thread 0 ≡ false
unfolding test_bit
no_thread = refl

-- 8 forks a process 9.
fork_inherits_example :
    (forked.machine.rlim 9 rlimit_as ≡ both (3 * mib))
    × (forked.machine.rlim 8 rlimit_as ≡ both (3 * mib))
    × (lookup (pos 9) forked.nodes ≡ none)
    × ((enter (luis_remove_memory_limit kernel (pos 9)) forked).1 ≡ forked)
    × (is_zero (enter (luis_remove_memory_limit kernel (pos 9)) forked).0 ≡ false)
fork_inherits_example =
    fork_inherits kernel kernel (pos 8) (pos 9) (3 * mib) 0 9 empty server refl adds_8 no_thread
      (λ same. ground arith) (λ same. ground (arith, ==ℤ_iff (pos 9) (pos 8))) refl

-- -101: the process is limited already; -100: it uses more; -102: it is not on record.
add_atomic_example : (enter (luis_add_memory_limit kernel (pos 7) (3 * mib)) limited).1 ≡ limited
unfolding luis_add_memory_limit find_node_by_pid
add_atomic_example =
    add_atomic kernel (pos 7) (3 * mib) limited (λ e. ground arith) (λ e. ground arith)

server-Addable : Addable kernel (pos 8) (3 * mib) limited server
unfolding get_process_memory_usage
server-Addable = ground arith

add_no_memory_example :
    let (ret, s') = enter (luis_add_memory_limit full_kernel (pos 8) (3 * mib)) limited in
    (ret ≡ neg enomem)
    × (s'.nodes ≡ limited.nodes)
    × (lookup (pos 8) s'.nodes ≡ none)
    × (s'.machine.rlim 8 rlimit_as ≡ both (3 * mib))
add_no_memory_example =
    add_no_memory full_kernel (pos 8) (3 * mib) limited server refl refl server-Addable

-- 9 has ended; 8 is added and 9 is not removed, before there is a new process 9.
abbrev meanwhile : List (Kernel × Request)
meanwhile = (kernel, Request.add (pos 8) (3 * mib)) ∷ (later_kernel, Request.remove (pos 9)) ∷ []

abbrev reusing_kernel : Kernel
reusing_kernel = record kernel { find_task_by_vpid = λ pid. some editor }

stale_entry_example :
    (lookup (pos 9) (run meanwhile stale).nodes ≡ some mib)
    × (is_zero
          (enter (luis_add_memory_limit reusing_kernel (pos 9) (4 * mib)) (run meanwhile stale)).0
        ≡ false)
stale_entry_example =
    stale_entry meanwhile (pos 9) mib (4 * mib) stale reusing_kernel stale-IsValid refl
      (refl, (refl, tt))

abbrev access : UserAccess
access = record {
  buffer_ok = λ n. true;
  size_ok = true;
  kmalloc_array = λ n m. true;
  copy_to_user = λ n. 0;
  put_user = pos 0;
}

abbrev blank : UserMemory
blank = record { processes_buffer = none; processes_buffer_size = none }

get_writes_prefix_example :
    let m' = (enter (luis_get_memory_limits access 2 limited.nodes) blank).1 in
    (m'.processes_buffer ≡ some limited.nodes) × (m'.processes_buffer_size ≡ some 1) × (1 ≤ 2)
unfolding luis_get_memory_limits fill_buffer
get_writes_prefix_example = get_writes_prefix access 2 limited.nodes blank refl
