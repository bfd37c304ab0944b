-- ===== src/Examples/Clones.antt =====
-- Making processes and threads, and unsharing.
use so2_202003745_vd.Base.{
  ℕ, ◌+◌, ◌^◌, ◌≡◌, refl, none, some, false, ◌==◌, pos, negsuc, neg, ok, err, arith, enomem,
  if◌then◌else◌,
}
use so2_202003745_vd.Clone.{Process, References, test_bit, decrement}
use so2_202003745_vd.Clone.Resources.{
  Allocators, copy_files, copy_fs, copy_sighand, copy_signal, copy_mm,
}
use so2_202003745_vd.Clone.CopyProcess.{
  ForkHost, KernelCloneArgs, copy_process, copy_resources, clone_flags_check, finish_check,
  late_check, new_process,
}
use so2_202003745_vd.Clone.CopyProcess.Undo.{Releases, Fresh, UnchangedAt, copy_process_error}
use so2_202003745_vd.Clone.CopyProcess.Threads.{copy_process_thread}
use so2_202003745_vd.Clone.Calls.{no_args, fork_args}

-- The current task is at address 1; what it uses is at address 10 and has one user.
abbrev shell : Process
shell = record {
  address = 1;
  pid = 100;
  tgid = 100;
  group_leader = 1;
  real_parent = 0;
  exit_signal = pos 17;
  mm = some 10;
  fs = 10;
  files = some 10;
  sighand = 10;
  signal = 10;
  set_child_tid = 0;
  clear_child_tid = 0;
}

abbrev one_user : ℕ → ℕ
one_user a = if a == 10 then 1 else 0

abbrev references : References
references = record {
  mm_users = one_user;
  fs_users = one_user;
  files_count = one_user;
  sighand_count = one_user;
  group_threads = one_user;
  nr_threads = 1;
  total_forks = 0;
}

-- New structures are at address 20.
abbrev allocators : Allocators
allocators = record {
  dup_fd = ok 20;
  copy_fs_struct = some 20;
  new_sighand = some 20;
  new_signal = some 20;
  dup_mm = some 20;
  in_exec = false;
  exit_files = λ a counts. decrement a counts;
  exit_fs = λ a counts. decrement a counts;
}

abbrev fork_host : ForkHost
fork_host = record {
  allocators = allocators;
  is_unkillable = false;
  other_pid_ns = false;
  task_sigpending = false;
  setup = pos 0;
  new_task = 2;
  copy_namespaces = pos 0;
  copy_io = pos 0;
  copy_thread = pos 0;
  alloc_pid = ok 101;
  prepare_pidfd = pos 0;
  cgroup_can_fork = pos 0;
  is_dying_pid_ns = false;
  fatal_signal_pending = false;
  leader_exit_signal = pos 17;
}

-- The same, but no memory is left for an address space.
abbrev short_of_memory : ForkHost
short_of_memory = record fork_host { allocators = record allocators { dup_mm = none } }

short-Releases : Releases short_of_memory.allocators
short-Releases = record {
  dup_fd_error = refl;
  exit_files_drops = λ a counts b. refl;
  exit_fs_drops = λ a counts b. refl;
}

short-Fresh : Fresh short_of_memory.allocators references
short-Fresh = record {
  fresh_files = refl;
  fresh_fs = refl;
  fresh_sighand = refl;
  fresh_signal = refl;
  fresh_mm = refl;
}

failed_fork : References
failed_fork = (copy_process short_of_memory shell fork_args references).1

fork_fails :
    copy_process short_of_memory shell fork_args references ≡ (err (neg enomem), failed_fork)
unfolding copy_process copy_resources clone_flags_check finish_check late_check copy_files copy_fs
    copy_sighand copy_signal copy_mm test_bit failed_fork
fork_fails = refl

-- The fork fails at its last copy, and the table of files at address 10 still has its one user.
copy_process_error_example : UnchangedAt 10 references failed_fork
copy_process_error_example =
    copy_process_error short_of_memory shell fork_args references failed_fork (neg enomem) 10
      short-Releases short-Fresh fork_fails

-- CLONE_VM | CLONE_SIGHAND | CLONE_THREAD
abbrev thread_args : KernelCloneArgs
thread_args = record no_args { flags = 2 ^ 8 + 2 ^ 11 + 2 ^ 16 }

abbrev thread : Process
thread = record shell { address = 2; pid = 101; exit_signal = negsuc 0; fs = 20; files = some 20 }

after_thread : References
after_thread = (copy_process fork_host shell thread_args references).1

thread_made : copy_process fork_host shell thread_args references ≡ (ok thread, after_thread)
unfolding copy_process copy_resources clone_flags_check finish_check late_check copy_files copy_fs
    copy_sighand copy_signal copy_mm new_process test_bit after_thread
thread_made = refl

copy_process_thread_example :
    (thread.tgid ≡ 100)
    × (thread.group_leader ≡ 1)
    × (thread.real_parent ≡ 0)
    × (thread.exit_signal ≡ negsuc 0)
    × ((thread.sighand ≡ 10) × (after_thread.sighand_count 10 ≡ 2))
    × ((thread.signal ≡ 10) × (after_thread.group_threads 10 ≡ 2))
    × ((thread.mm ≡ some 10) × (after_thread.mm_users 10 ≡ 2))
    × (after_thread.nr_threads ≡ 2)
    × (after_thread.total_forks ≡ 1)
unfolding test_bit
copy_process_thread_example =
    copy_process_thread fork_host shell thread thread_args references after_thread 10 refl refl
      thread_made (ground arith)
