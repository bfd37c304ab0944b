-- ===== src/Clone.antt =====
-- Creating processes and threads, Kernel/kernel/fork.c. Here are the flags of a clone and the state
-- that the children of this module share.
pub mod WalkTree
pub mod Signal
pub mod Limits
pub mod Resources
pub mod CopyProcess
pub mod Calls
pub mod Clone3
pub mod Unshare
use so2_202003745_vd.Base.{
  ℕ, ◌+◌, ◌-◌, ◌*◌, ◌^◌, ◌/◌, ◌%◌, Bool, Option, none, some, ℤ, ◌==◌, if◌then◌else◌,
}

-- The number of the bit of each flag, CLONE_NEWTIME to CLONE_INTO_CGROUP.
abbrev pub clone_newtime : ℕ
clone_newtime = 7

abbrev pub clone_vm : ℕ
clone_vm = 8

abbrev pub clone_fs : ℕ
clone_fs = 9

abbrev pub clone_files : ℕ
clone_files = 10

abbrev pub clone_sighand : ℕ
clone_sighand = 11

abbrev pub clone_pidfd : ℕ
clone_pidfd = 12

abbrev pub clone_ptrace : ℕ
clone_ptrace = 13

abbrev pub clone_vfork : ℕ
clone_vfork = 14

abbrev pub clone_parent : ℕ
clone_parent = 15

abbrev pub clone_thread : ℕ
clone_thread = 16

abbrev pub clone_newns : ℕ
clone_newns = 17

abbrev pub clone_sysvsem : ℕ
clone_sysvsem = 18

abbrev pub clone_parent_settid : ℕ
clone_parent_settid = 20

abbrev pub clone_child_cleartid : ℕ
clone_child_cleartid = 21

abbrev pub clone_detached : ℕ
clone_detached = 22

abbrev pub clone_untraced : ℕ
clone_untraced = 23

abbrev pub clone_child_settid : ℕ
clone_child_settid = 24

abbrev pub clone_newcgroup : ℕ
clone_newcgroup = 25

abbrev pub clone_newuts : ℕ
clone_newuts = 26

abbrev pub clone_newipc : ℕ
clone_newipc = 27

abbrev pub clone_newuser : ℕ
clone_newuser = 28

abbrev pub clone_newpid : ℕ
clone_newpid = 29

abbrev pub clone_newnet : ℕ
clone_newnet = 30

abbrev pub clone_clear_sighand : ℕ
clone_clear_sighand = 32

abbrev pub clone_into_cgroup : ℕ
clone_into_cgroup = 33

-- `flags & (1 << k)` as a truth value
unfoldable pub test_bit : ℕ → ℕ → Bool
test_bit k flags = flags / 2 ^ k % 2 == 1

-- `flags | (1 << k)`
unfoldable pub set_bit : ℕ → ℕ → ℕ
unfolding test_bit
set_bit k flags = if test_bit k flags then flags else flags + 2 ^ k

-- `flags & CSIGNAL` and `flags & ~CSIGNAL`, where CSIGNAL is 0xff
abbrev pub csignal : ℕ → ℕ
csignal flags = flags % 256

abbrev pub no_csignal : ℕ → ℕ
no_csignal flags = flags / 256 * 256

abbrev pub lower_32_bits : ℕ → ℕ
lower_32_bits flags = flags % 2 ^ 32

-- SIGCHLD
abbrev pub sigchld : ℕ
sigchld = 17

-- The fields of `struct task_struct` that a clone copies; the structures behind them are named by
-- their addresses.
pub record Process : Type 0 where
  pub address : ℕ
  pub pid : ℕ
  pub tgid : ℕ
  pub group_leader : ℕ
  pub real_parent : ℕ
  pub exit_signal : ℤ
  pub mm : Option ℕ
  pub fs : ℕ
  pub files : Option ℕ
  pub sighand : ℕ
  pub signal : ℕ
  pub set_child_tid : ℕ
  pub clear_child_tid : ℕ

-- The reference counts of the structures at each address, `nr_threads` of each signal struct, and
-- the counters `nr_threads` and `total_forks`.
pub record References : Type 0 where
  pub mm_users : ℕ → ℕ
  pub fs_users : ℕ → ℕ
  pub files_count : ℕ → ℕ
  pub sighand_count : ℕ → ℕ
  pub group_threads : ℕ → ℕ
  pub nr_threads : ℕ
  pub total_forks : ℕ

-- `counts[a] = n`
abbrev pub set_at : ℕ → ℕ → (ℕ → ℕ) → ℕ → ℕ
set_at a n counts b = if a == b then n else counts b

abbrev pub increment : ℕ → (ℕ → ℕ) → ℕ → ℕ
increment a counts = set_at a (counts a + 1) counts

abbrev pub decrement : ℕ → (ℕ → ℕ) → ℕ → ℕ
decrement a counts = set_at a (counts a - 1) counts
