-- ===== src/Prctl/ExeFile.antt =====
-- The executable file of an address space: `set_mm_exe_file`, `replace_mm_exe_file` and their callers,
-- Kernel/kernel/fork.c, with the count of those who deny writing to a file, and
-- `prctl_set_mm_exe_file` of Kernel/kernel/sys.c.
pub mod Denied
use so2_202003745_vd.Base.{
  ℕ, ◌+◌, ◌-◌, Bool, false, ◌||◌, not, List, [], ◌∷◌, Option, none, some, ℤ, pos, neg, is_zero,
  ◌==◌, if◌then◌else◌, eacces, ebusy, ebadf,
}

-- A file by its number. The store has, for each file, the references to it and the denials of writing
-- (`-i_writecount`).
pub record FileStore : Type 0 where
  pub references : ℕ → ℕ
  pub denials : ℕ → ℕ

-- Of an address space: its executable and the files that its areas map.
pub record ExeMm : Type 0 where
  pub exe_file : Option ℕ
  pub vm_files : List (Option ℕ)

-- `path_equal` on the paths of two files, `deny_write_access` where the file is open for writing (an
-- error, else 0), and what `prctl_set_mm_exe_file` asks of a descriptor.
pub record ExeHost : Type 0 where
  pub path_equal : ℕ → ℕ → Bool
  pub write_busy : ℕ → ℤ
  pub fdget : ℕ → Option ℕ
  pub is_reg : ℕ → Bool
  pub path_noexec : ℕ → Bool
  pub file_permission_exec : ℕ → ℤ

abbrev pub put_at : ℕ → ℕ → (ℕ → ℕ) → ℕ → ℕ
put_at file value f other = if other == file then value else f other

-- `deny_write_access` where it succeeds, and `get_file`
abbrev pub hold : ℕ → FileStore → FileStore
hold file s = record {
  references = put_at file (s.references file + 1) s.references;
  denials = put_at file (s.denials file + 1) s.denials;
}

-- `allow_write_access` and `fput`
abbrev pub release : Option ℕ → FileStore → FileStore
release none s = s
release (some file) s = record {
  references = put_at file (s.references file - 1) s.references;
  denials = put_at file (s.denials file - 1) s.denials;
}

abbrev pub ExeState : Type 0
ExeState = ExeMm × FileStore

unfoldable pub set_mm_exe_file : ExeHost → Option ℕ → ExeState → ℤ × ExeState
set_mm_exe_file h none (mm, s) = (pos 0, (record mm { exe_file = none }, release mm.exe_file s))
set_mm_exe_file h (some file) (mm, s) =
    if not (is_zero (h.write_busy file))
    then (neg eacces, (mm, s))
    else (pos 0, (record mm { exe_file = some file }, release mm.exe_file (hold file s)))

-- The loop over the areas: whether one of them maps the old file.
unfoldable pub maps_file : ExeHost → ℕ → List (Option ℕ) → Bool
maps_file h old [] = false
maps_file h old (none ∷ rest) = maps_file h old rest
maps_file h old (some vm_file ∷ rest) = h.path_equal vm_file old || maps_file h old rest

unfoldable pub is_exe_mapped : ExeHost → ExeMm → Bool
is_exe_mapped h mm = elim mm.exe_file [ none ↦ false | some old ↦ maps_file h old mm.vm_files ]

unfoldable pub replace_mm_exe_file : ExeHost → ℕ → ExeState → ℤ × ExeState
replace_mm_exe_file h file (mm, s) =
    if is_exe_mapped h mm
    then (neg ebusy, (mm, s))
    else if not (is_zero (h.write_busy file))
    then (neg eacces, (mm, s))
    else (pos 0, (record mm { exe_file = some file }, release mm.exe_file (hold file s)))

-- `get_mm_exe_file`: the file, with one more reference
unfoldable pub get_mm_exe_file : ExeState → Option ℕ × FileStore
get_mm_exe_file (mm, s) = elim mm.exe_file [
  | none ↦ (none, s)
  | some file ↦
      (some file, record s { references = put_at file (s.references file + 1) s.references })
]

-- `dup_mm_exe_file`, into the address space of a child: writing is denied once more; where that fails
-- the kernel warns and goes on.
unfoldable pub dup_mm_exe_file : ExeHost → ExeState → Option ℕ × FileStore
unfolding get_mm_exe_file
dup_mm_exe_file h (mm, s) =
    let (exe_file, s') = get_mm_exe_file (mm, s) in
    elim exe_file [
      | none ↦ (none, s')
      | some file ↦
          if is_zero (h.write_busy file)
          then (some file, record s' { denials = put_at file (s'.denials file + 1) s'.denials })
          else (some file, s')
    ]

-- `get_task_exe_file`: nothing for a kernel thread, nor without an address space
unfoldable pub get_task_exe_file : Bool → Option ExeMm → FileStore → Option ℕ × FileStore
unfolding get_mm_exe_file
get_task_exe_file is_kthread none s = (none, s)
get_task_exe_file is_kthread (some mm) s = if is_kthread then (none, s) else get_mm_exe_file (mm, s)

-- `prctl_set_mm_exe_file`
unfoldable pub prctl_set_mm_exe_file : ExeHost → ℕ → ExeState → ℤ × ExeState
prctl_set_mm_exe_file h fd (mm, s) = elim (h.fdget fd) [
  | none ↦ (neg ebadf, (mm, s))
  | some file ↦
      if not (h.is_reg file) || h.path_noexec file
      then (neg eacces, (mm, s))
      else if not (is_zero (h.file_permission_exec file))
      then (h.file_permission_exec file, (mm, s))
      else replace_mm_exe_file h file (mm, s)
]
