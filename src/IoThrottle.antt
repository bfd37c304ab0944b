-- ===== src/IoThrottle.antt =====
-- `luis_get_io_throttle`, Kernel/kernel/sys.c.
pub mod Laws
use so2_202003745_vd.Base.{
  ℕ, suc, ◌+◌, ◌-◌, ◌%◌, List, [], ◌∷◌, length, take, Option, none, some, Bool, true, false, ◌&&◌,
  not, ℤ, pos, neg, ◌==◌, leb, if◌then◌else◌, Call, ◌>>=◌, ◌>>◌, pure, modify, return_if, efault,
  word,
}

abbrev pub max_procs : ℕ
max_procs = 20

-- What the call reads of a process; `comm` is the name up to its NUL.
pub record Process : Type 0 where
  pub pid : ℤ
  pub comm : List ℕ
  pub read_bytes : ℕ
  pub write_bytes : ℕ
  pub cancelled_write_bytes : ℕ
  pub sum_exec_runtime : ℕ
  pub vruntime : ℕ

-- `struct io_stats`
pub record IoStats : Type 0 where
  pub pid : ℤ
  pub comm : List ℕ
  pub bytes_read : ℕ
  pub bytes_written : ℕ
  pub cancelled_write_bytes : ℕ
  pub io_wait_time : ℕ

-- `struct all_io_stats`: the first `num_procs` entries
pub record AllIoStats : Type 0 where
  pub stats : List IoStats
  pub num_procs : ℕ

abbrev pub is_idle : Process → Bool
is_idle task = (task.read_bytes == 0) && (task.write_bytes == 0)

-- One entry; `strncpy` copies at most 17 bytes of the name, and `-` wraps in 64 bits.
unfoldable pub entry_of : Process → IoStats
entry_of task = record {
  pid = task.pid;
  comm = take 17 task.comm;
  bytes_read = task.read_bytes;
  bytes_written = task.write_bytes;
  cancelled_write_bytes = task.cancelled_write_bytes;
  io_wait_time = (task.sum_exec_runtime + word - task.vruntime) % word;
}

-- The loop over the processes, with `i` entries filled.
unfoldable pub collect : ℕ → List Process → List IoStats
collect i [] = []
collect i (task ∷ rest) =
    let skip = collect i rest in
    let fill = collect (i + 1) rest in
    if is_idle task then skip else (if leb max_procs i then [] else entry_of task ∷ fill)

-- `luis_get_io_throttle`: the state is the user's struct.
unfoldable pub luis_get_io_throttle : List Process → Bool → Bool → Call (Option AllIoStats) ℤ
luis_get_io_throttle processes access_ok copied = do
  stats ← pure (collect 0 processes)
  return_if (not access_ok) (neg efault)
  return_if (not copied) (neg efault)
  modify (λ _. some (record { stats = stats; num_procs = length stats }))
  pure (pos 0)
