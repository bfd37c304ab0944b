-- ===== src/Task.antt =====
-- The fields of `struct task_struct` and `struct cred` that Kernel/kernel/sys.c and
-- Kernel/kernel/fase3/syscall3.c read. The structs are declared in kernel headers outside the
-- repository; a pointer to a shared object (signal, group leader, namespace, user) is its number.
use so2_202003745_vd.Base.{ℕ, Option}

pub record Cred : Type 0 where
  pub uid : ℕ
  pub gid : ℕ
  pub suid : ℕ
  pub sgid : ℕ
  pub euid : ℕ
  pub egid : ℕ
  pub fsuid : ℕ
  pub fsgid : ℕ
  pub user : ℕ
  pub ucounts : ℕ
  pub user_ns : ℕ

pub record Task : Type 0 where
  pub address : ℕ
  pub signal : ℕ
  pub group_leader : ℕ
  -- `mm->total_vm` in pages; `none` for a task without address space (`get_task_mm` is NULL)
  pub total_vm : Option ℕ
  pub cred : Cred
