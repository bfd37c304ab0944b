-- ===== src/Prctl/SetMm/Atomic.antt =====
-- A call that is refused changes nothing.
use so2_202003745_vd.Base.{
  ℕ, ◌%◌, ◌^◌, ◌≡◌, ◌⊎◌, Bool, true, false, ℤ, is_zero, arith, Option-cases, inl, inr,
}
use so2_202003745_vd.Prctl.ExeFile.{ExeHost, ExeState, prctl_set_mm_exe_file, replace_mm_exe_file}
use so2_202003745_vd.Prctl.SetMm.{
  PrctlMmMap, MmState, MmHost, SetMmOption, map_exe_file, install_map, prctl_set_mm_map,
  prctl_set_auxv, with_member, set_member, set_privileged, serve_set_mm, prctl_set_mm,
}

-- A call that does not return 0 changes nothing.
abbrev IsAtomic : {S : Type 0} → S → ℤ × S → Type 0
IsAtomic s (ret, s') = (is_zero ret ≡ true) ⊎ (s' ≡ s)

exe_file-IsAtomic :
    (h : ExeHost) (fd : ℕ) (s : ExeState) → IsAtomic s (prctl_set_mm_exe_file h fd s)
unfolding prctl_set_mm_exe_file replace_mm_exe_file
exe_file-IsAtomic h fd (mm, s) = elim (Option-cases (h.fdget fd)) [
  | inl absent ↦ ground arith
  | inr (file, found) ↦ ground arith
]

map_exe_file-IsAtomic :
    (h : MmHost) (m : PrctlMmMap) (s : ExeState) → IsAtomic s (map_exe_file h m s)
unfolding map_exe_file
map_exe_file-IsAtomic h m s = ground (arith, exe_file-IsAtomic h.exe m.exe_fd s)

install_map-IsAtomic : (h : MmHost) (m : PrctlMmMap) (s : MmState) → IsAtomic s (install_map h m s)
unfolding install_map
install_map-IsAtomic h m s = ground (arith, map_exe_file-IsAtomic h m s.exe)

prctl_set_mm_map-IsAtomic :
    (h : MmHost) (asks_size : Bool) (addr size : ℕ) (s : MmState)
    → IsAtomic s (prctl_set_mm_map h asks_size addr size s)
unfolding prctl_set_mm_map
prctl_set_mm_map-IsAtomic h asks_size addr size s = elim (Option-cases (h.read_map addr)) [
  | inl absent ↦ ground arith
  | inr (m, found) ↦ ground (arith, install_map-IsAtomic h m s)
]

prctl_set_auxv-IsAtomic :
    (h : MmHost) (addr len : ℕ) (s : MmState) → IsAtomic s (prctl_set_auxv h addr len s)
unfolding prctl_set_auxv
prctl_set_auxv-IsAtomic h addr len s = elim (Option-cases (h.read_auxv addr len)) [
  | inl absent ↦ ground arith
  | inr (bytes, found) ↦ ground arith
]

set_member-IsAtomic :
    (h : MmHost) (opt : SetMmOption) (addr : ℕ) (s : MmState) → IsAtomic s (set_member h opt addr s)
unfolding set_member
set_member-IsAtomic h opt addr s = elim (Option-cases (with_member opt addr s.layout)) [
  | inl absent ↦ ground arith
  | inr (m, found) ↦ ground arith
]

serve_set_mm-IsAtomic :
    (h : MmHost) (opt : SetMmOption) (addr arg4 : ℕ) (s : MmState)
    → IsAtomic s (serve_set_mm h opt addr arg4 s)
unfolding serve_set_mm set_privileged
serve_set_mm-IsAtomic h opt addr arg4 s = ground (
  arith,
  prctl_set_mm_map-IsAtomic h true addr arg4 s,
  prctl_set_mm_map-IsAtomic h false addr arg4 s,
  exe_file-IsAtomic h.exe (addr % 2 ^ 32) s.exe,
  prctl_set_auxv-IsAtomic h addr arg4 s,
  set_member-IsAtomic h opt addr s,
)

-- `prctl(PR_SET_MM, ...)` either returns 0 or leaves everything that it could change as it was: the
-- bounds, the auxiliary vector, the executable file with the references to files and the denials
-- of writing, and user space; this holds for every option and every argument, also where
-- an error comes late, as that of the executable file of a map.
pub prctl_set_mm_atomic :
    (h : MmHost) (opt : SetMmOption) (addr arg4 arg5 : ℕ) (s : MmState)
    → let (ret, s') = prctl_set_mm h opt addr arg4 arg5 s in (is_zero ret ≡ true) ⊎ (s' ≡ s)
unfolding prctl_set_mm
prctl_set_mm_atomic h opt addr arg4 arg5 s = ground (arith, serve_set_mm-IsAtomic h opt addr arg4 s)
