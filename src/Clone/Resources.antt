-- ===== src/Clone/Resources.antt =====
-- The copies of what a process uses: `copy_files`, `copy_fs`, `copy_sighand`, `copy_signal`,
-- `copy_mm`, and what releases them.
use so2_202003745_vd.Base.{
  ℕ, Bool, Option, none, some, ℤ, pos, neg, if◌then◌else◌, Result, ok, err, enomem, eagain,
}
use so2_202003745_vd.Clone.{
  Process, set_at, increment, decrement, test_bit, clone_vm, clone_fs, clone_files, clone_sighand,
  clone_thread,
}

-- The allocators: the address of the new structure, which one task uses. `none` is a NULL. `dup_fd`
-- ends by an error number instead. `in_exec` is that flag of the current `fs_struct`, and
-- `exit_files` and `exit_fs`, of other files, are what they make of the counts.
pub record Allocators : Type 0 where
  pub dup_fd : Result ℕ
  pub copy_fs_struct : Option ℕ
  pub new_sighand : Option ℕ
  pub new_signal : Option ℕ
  pub dup_mm : Option ℕ
  pub in_exec : Bool
  pub exit_files : ℕ → (ℕ → ℕ) → ℕ → ℕ
  pub exit_fs : ℕ → (ℕ → ℕ) → ℕ → ℕ

-- The result of a step: an error or 0, what the child points to, and the reference counts of its kind.
abbrev pub Step : Type 0 → Type 0
Step A = ℤ × (A × (ℕ → ℕ))

-- A structure of its own for the child, with one user.
abbrev pub own : ℕ → (ℕ → ℕ) → Step ℕ
own new counts = (pos 0, (new, set_at new 1 counts))

unfoldable pub copy_files : Allocators → Process → ℕ → Bool → (ℕ → ℕ) → Step (Option ℕ)
copy_files host current flags no_files counts = elim current.files [
  | none ↦ (pos 0, (none, counts))
  | some oldf ↦
      if no_files
      then (pos 0, (none, counts))
      else if test_bit clone_files flags
      then (pos 0, (some oldf, increment oldf counts))
      else elim host.dup_fd [
        | err e ↦ (e, (some oldf, counts))
        | ok newf ↦ (pos 0, (some newf, set_at newf 1 counts))
      ]
]

-- What a child points to after a copy that has failed is not read: 0 stands for NULL.
unfoldable pub copy_fs : Allocators → Process → ℕ → (ℕ → ℕ) → Step ℕ
copy_fs host current flags counts =
    if test_bit clone_fs flags
    then if host.in_exec
      then (neg eagain, (current.fs, counts))
      else (pos 0, (current.fs, increment current.fs counts))
    else elim host.copy_fs_struct [ none ↦ (neg enomem, (0, counts)) | some new ↦ own new counts ]

-- The table of actions is not part of the state.
unfoldable pub copy_sighand : Allocators → Process → ℕ → (ℕ → ℕ) → Step ℕ
copy_sighand host current flags counts =
    if test_bit clone_sighand flags
    then (pos 0, (current.sighand, increment current.sighand counts))
    else elim host.new_sighand [ none ↦ (neg enomem, (0, counts)) | some sig ↦ own sig counts ]

-- The counts are `nr_threads` of the signal structs; the rest of a new one, its limits included, is not
-- part of the state.
unfoldable pub copy_signal : Allocators → Process → ℕ → (ℕ → ℕ) → Step ℕ
copy_signal host current flags counts =
    if test_bit clone_thread flags
    then (pos 0, (current.signal, counts))
    else elim host.new_signal [ none ↦ (neg enomem, (0, counts)) | some sig ↦ own sig counts ]

-- A kernel thread has no address space. The counters of faults and switches that the code clears in
-- the child are not part of the state.
unfoldable pub copy_mm : Allocators → Process → ℕ → (ℕ → ℕ) → Step (Option ℕ)
copy_mm host current flags counts = elim current.mm [
  | none ↦ (pos 0, (none, counts))
  | some oldmm ↦
      if test_bit clone_vm flags
      then (pos 0, (some oldmm, increment oldmm counts))
      else elim host.dup_mm [
        | none ↦ (neg enomem, (none, counts))
        | some mm ↦ (pos 0, (some mm, set_at mm 1 counts))
      ]
]

-- What the labels `bad_fork_cleanup_...` do to the counts.
abbrev pub mmput : Option ℕ → (ℕ → ℕ) → ℕ → ℕ
mmput none counts = counts
mmput (some mm) counts = decrement mm counts

-- `free_signal_struct`, of a signal struct that was never shared
abbrev pub cleanup_signal : ℕ → ℕ → (ℕ → ℕ) → ℕ → ℕ
cleanup_signal flags signal counts =
    if test_bit clone_thread flags then counts else set_at signal 0 counts

-- `__cleanup_sighand`
abbrev pub cleanup_sighand : ℕ → (ℕ → ℕ) → ℕ → ℕ
cleanup_sighand sighand counts = decrement sighand counts

abbrev pub cleanup_files : Allocators → Option ℕ → (ℕ → ℕ) → ℕ → ℕ
cleanup_files host none counts = counts
cleanup_files host (some files) counts = host.exit_files files counts
