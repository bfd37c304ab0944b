-- ===== src/Prctl/ExeFile/Denied.antt =====
-- What is denied: writing to a file is denied once for each address space that runs it.
use so2_202003745_vd.Base.{
  ℕ, ◌+◌, ◌≤◌, ◌≡◌, List, [], ◌∷◌, Option, none, some, ℤ, ◌==◌, if◌then◌else◌, arith, Option-cases,
  inl, inr,
}
use so2_202003745_vd.Prctl.ExeFile.{
  FileStore, ExeMm, ExeHost, ExeState, prctl_set_mm_exe_file, replace_mm_exe_file, set_mm_exe_file,
  release, hold,
}

-- whether an address space runs a file, as a number
abbrev pub runs : ℕ → ExeMm → ℕ
runs file mm = elim mm.exe_file [ none ↦ 0 | some exe ↦ if exe == file then 1 else 0 ]

-- The address space holds its executable, and `others n` denials and references of file `n` are those
-- of the rest of the system.
abbrev pub IsHeld : (ℕ → ℕ) → ExeState → Type 0
IsHeld others (mm, s) =
    (file : ℕ)
    → (s.denials file ≡ others file + runs file mm)
      × (others file + runs file mm ≤ s.references file)

-- A call that replaces the executable.
pub data ExeCall : Type 0 where
  set : Option ℕ → ExeCall
  replace : ℕ → ExeCall
  set_fd : ℕ → ExeCall

pub exe_call : ExeHost → ExeCall → ExeState → ℤ × ExeState
exe_call h (set file) s = set_mm_exe_file h file s
exe_call h (replace file) s = replace_mm_exe_file h file s
exe_call h (set_fd fd) s = prctl_set_mm_exe_file h fd s

pub after_calls : ExeHost → List ExeCall → ExeState → ExeState
after_calls h [] s = s
after_calls h (c ∷ rest) s = after_calls h rest (exe_call h c s).1

replaced-IsHeld :
    (others : ℕ → ℕ) (file : ℕ) (mm : ExeMm) (s : FileStore)
    → IsHeld others (mm, s)
    → IsHeld others (record mm { exe_file = some file }, release mm.exe_file (hold file s))
replaced-IsHeld others file mm s held n = elim (Option-cases mm.exe_file) [
  | inl absent ↦ ground (arith, held n, held file)
  | inr (old, running) ↦ ground (arith, held n, held file, held old)
]

dropped-IsHeld :
    (others : ℕ → ℕ) (mm : ExeMm) (s : FileStore)
    → IsHeld others (mm, s)
    → IsHeld others (record mm { exe_file = none }, release mm.exe_file s)
dropped-IsHeld others mm s held n = elim (Option-cases mm.exe_file) [
  | inl absent ↦ ground (arith, held n)
  | inr (old, running) ↦ ground (arith, held n, held old)
]

replace-IsHeld :
    (h : ExeHost) (others : ℕ → ℕ) (file : ℕ) (mm : ExeMm) (s : FileStore)
    → IsHeld others (mm, s)
    → IsHeld others (replace_mm_exe_file h file (mm, s)).1
unfolding replace_mm_exe_file
replace-IsHeld h others file mm s held n =
    ground (arith, held n, replaced-IsHeld others file mm s held n)

set-IsHeld :
    (h : ExeHost) (others : ℕ → ℕ) (file : Option ℕ) (mm : ExeMm) (s : FileStore)
    → IsHeld others (mm, s)
    → IsHeld others (set_mm_exe_file h file (mm, s)).1
unfolding set_mm_exe_file
set-IsHeld h others none mm s held n = dropped-IsHeld others mm s held n
set-IsHeld h others (some file) mm s held n =
    ground (arith, held n, replaced-IsHeld others file mm s held n)

set_fd-IsHeld :
    (h : ExeHost) (others : ℕ → ℕ) (fd : ℕ) (mm : ExeMm) (s : FileStore)
    → IsHeld others (mm, s)
    → IsHeld others (prctl_set_mm_exe_file h fd (mm, s)).1
unfolding prctl_set_mm_exe_file
set_fd-IsHeld h others fd mm s held n = elim (Option-cases (h.fdget fd)) [
  | inl absent ↦ ground (arith, held n)
  | inr (file, found) ↦ ground (arith, held n, replace-IsHeld h others file mm s held n)
]

call-IsHeld :
    (h : ExeHost) (others : ℕ → ℕ) (c : ExeCall) (mm : ExeMm) (s : FileStore)
    → IsHeld others (mm, s)
    → IsHeld others (exe_call h c (mm, s)).1
unfolding exe_call
call-IsHeld h others (set file) mm s held = set-IsHeld h others file mm s held
call-IsHeld h others (replace file) mm s held = replace-IsHeld h others file mm s held
call-IsHeld h others (set_fd fd) mm s held = set_fd-IsHeld h others fd mm s held

-- Whatever calls set or replace the executable of an address space, and whichever of them fail, writing
-- to each file stays denied exactly once for the address space if it is the executable, beside the
-- denials of others, and at least as many references are held.
pub after_calls-IsHeld :
    (h : ExeHost) (others : ℕ → ℕ) (l : List ExeCall) (s : ExeState)
    → IsHeld others s
    → IsHeld others (after_calls h l s)
unfolding after_calls
after_calls-IsHeld h others [] s held = held
after_calls-IsHeld h others (c ∷ rest) (mm, s) held =
    after_calls-IsHeld h others rest (exe_call h c (mm, s)).1 (call-IsHeld h others c mm s held)
