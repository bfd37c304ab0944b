-- ===== src/Prctl/SetMm/LaidOut.antt =====
-- What the calls keep of an address space: an order of its bounds and the end of its auxiliary vector.
use so2_202003745_vd.Base.{
  ℕ, Bool, ◌-◌, ◌*◌, ◌≤◌, ◌<◌, ◌≡◌, List, [], ◌∷◌, true, false, is_zero, arith, Option-cases, inl,
  inr,
}
use so2_202003745_vd.Prctl.SetMm.{
  Layout, PrctlMmMap, MmState, MmHost, SetMmOption, any_outside, members, is_outside, is_ordered,
  fill_auxv, validate_prctl_map_addr, map_auxv, install_map, prctl_set_mm_map, prctl_set_auxv,
  with_member, set_member, set_privileged, serve_set_mm, prctl_set_mm,
}

abbrev pub Within : MmHost → ℕ → Type 0
Within h val = (h.mmap_min_addr ≤ val) × (val < h.task_size)

-- The bounds lie in the address space and are in order, and the data segment is within its limit.
pub record IsLaidOut (h : MmHost) (m : Layout) : Type 0 where
  pub code : Within h m.start_code × Within h m.end_code × (m.start_code < m.end_code)
  pub data_segment : Within h m.start_data × Within h m.end_data × (m.start_data ≤ m.end_data)
  pub heap : Within h m.start_brk × Within h m.brk × (m.start_brk ≤ m.brk)
  pub stack : Within h m.start_stack
  pub arguments : Within h m.arg_start × Within h m.arg_end × (m.arg_start ≤ m.arg_end)
  pub environment : Within h m.env_start × Within h m.env_end × (m.env_start ≤ m.env_end)
  pub limit :
      is_zero (h.check_data_rlimit h.rlimit_data m.brk m.start_brk m.end_data m.start_data) ≡ true

-- The last two entries of an auxiliary vector are AT_NULL.
abbrev pub IsTerminated : MmHost → (ℕ → ℕ) → Type 0
IsTerminated h auxv =
    (i : ℕ) → 8 * (h.at_vector_size - 2) ≤ i → i < 8 * h.at_vector_size → auxv i ≡ 0

validate-IsLaidOut :
    (h : MmHost) (m : Layout) → is_zero (validate_prctl_map_addr h m) ≡ true → IsLaidOut h m
unfolding validate_prctl_map_addr any_outside is_ordered
validate-IsLaidOut h m fine = record {
  code = ground arith;
  data_segment = ground arith;
  heap = ground arith;
  stack = ground arith;
  arguments = ground arith;
  environment = ground arith;
  limit = ground arith;
}

inside : (h : MmHost) (val : ℕ) → Within h val → is_outside h val ≡ false
inside h val (low, high) = ground arith

laid_out_inside : (h : MmHost) (m : Layout) → IsLaidOut h m → any_outside h (members m) ≡ false
unfolding any_outside
laid_out_inside h m laid = rw (
  inside h m.start_code laid.code.0,
  inside h m.end_code laid.code.1,
  inside h m.start_data laid.data_segment.0,
  inside h m.end_data laid.data_segment.1,
  inside h m.start_brk laid.heap.0,
  inside h m.brk laid.heap.1,
  inside h m.start_stack laid.stack,
  inside h m.arg_start laid.arguments.0,
  inside h m.arg_end laid.arguments.1,
  inside h m.env_start laid.environment.0,
  inside h m.env_end laid.environment.1,
)

orders :
    (m : Layout)
    → m.start_code < m.end_code
    → m.start_data ≤ m.end_data
    → m.start_brk ≤ m.brk
    → m.arg_start ≤ m.arg_end
    → m.env_start ≤ m.env_end
    → is_ordered m ≡ true
unfolding is_ordered
orders m code data_segment heap arguments environment = ground arith

validate_laid_out :
    (h : MmHost) (m : Layout) → IsLaidOut h m → is_zero (validate_prctl_map_addr h m) ≡ true
unfolding validate_prctl_map_addr
validate_laid_out h m laid = rw (
  laid_out_inside h m laid,
  orders m laid.code.2 laid.data_segment.2 laid.heap.2 laid.arguments.2 laid.environment.2,
  laid.limit,
)

-- The bounds are accepted, and byte `i` of the auxiliary vector is 0.
abbrev IsAccepted : MmHost → ℕ → MmState → Type 0
IsAccepted h i s = (is_zero (validate_prctl_map_addr h s.layout) ≡ true) × (s.saved_auxv i ≡ 0)

module _ (h : MmHost) (i : ℕ) (low : 8 * (h.at_vector_size - 2) ≤ i) where
  map_auxv-zero : (m : PrctlMmMap) (saved : ℕ → ℕ) → saved i ≡ 0 → (map_auxv h m saved).1 i ≡ 0
  unfolding map_auxv fill_auxv
  map_auxv-zero m saved ends = elim (Option-cases (h.read_auxv m.auxv m.auxv_size)) [
    | inl absent ↦ ground arith
    | inr (bytes, found) ↦ ground arith
  ]

  install_map-IsAccepted :
      (m : PrctlMmMap) (s : MmState) → IsAccepted h i s → IsAccepted h i (install_map h m s).1
  unfolding install_map
  install_map-IsAccepted m s (valid, ends) = ground (arith, map_auxv-zero m s.saved_auxv ends)

  prctl_set_mm_map-IsAccepted :
      (asks_size : Bool) (addr size : ℕ) (s : MmState)
      → IsAccepted h i s
      → IsAccepted h i (prctl_set_mm_map h asks_size addr size s).1
  unfolding prctl_set_mm_map
  prctl_set_mm_map-IsAccepted asks_size addr size s accepted =
      elim (Option-cases (h.read_map addr)) [
        | inl absent ↦ ground arith
        | inr (m, found) ↦ ground (arith, install_map-IsAccepted m s accepted)
      ]

  prctl_set_auxv-IsAccepted :
      (addr len : ℕ) (s : MmState)
      → IsAccepted h i s
      → IsAccepted h i (prctl_set_auxv h addr len s).1
  unfolding prctl_set_auxv fill_auxv
  prctl_set_auxv-IsAccepted addr len s accepted = elim (Option-cases (h.read_auxv addr len)) [
    | inl absent ↦ ground arith
    | inr (bytes, found) ↦ ground arith
  ]

  set_member-IsAccepted :
      (opt : SetMmOption) (addr : ℕ) (s : MmState)
      → IsAccepted h i s
      → IsAccepted h i (set_member h opt addr s).1
  unfolding set_member
  set_member-IsAccepted opt addr s accepted = elim (Option-cases (with_member opt addr s.layout)) [
    | inl absent ↦ ground arith
    | inr (m, found) ↦ ground arith
  ]

  prctl_set_mm-IsAccepted :
      (opt : SetMmOption) (addr arg4 arg5 : ℕ) (s : MmState)
      → IsAccepted h i s
      → IsAccepted h i (prctl_set_mm h opt addr arg4 arg5 s).1
  unfolding prctl_set_mm serve_set_mm set_privileged
  prctl_set_mm-IsAccepted opt addr arg4 arg5 s accepted = ground (
    arith,
    prctl_set_mm_map-IsAccepted true addr arg4 s accepted,
    prctl_set_mm_map-IsAccepted false addr arg4 s accepted,
    prctl_set_auxv-IsAccepted addr arg4 s accepted,
    set_member-IsAccepted opt addr s accepted,
  )

-- A call: the option and three arguments.
pub after_set_mm : MmHost → List (SetMmOption × ℕ × ℕ × ℕ) → MmState → MmState
after_set_mm h [] s = s
after_set_mm h ((opt, addr, arg4, arg5) ∷ rest) s =
    after_set_mm h rest (prctl_set_mm h opt addr arg4 arg5 s).1

after_set_mm-IsAccepted :
    (h : MmHost) (i : ℕ) (l : List (SetMmOption × ℕ × ℕ × ℕ)) (s : MmState)
    → 8 * (h.at_vector_size - 2) ≤ i
    → IsAccepted h i s
    → IsAccepted h i (after_set_mm h l s)
unfolding after_set_mm
after_set_mm-IsAccepted h i [] s low accepted = accepted
after_set_mm-IsAccepted h i ((opt, addr, arg4, arg5) ∷ rest) s low accepted =
    after_set_mm-IsAccepted h i rest (prctl_set_mm h opt addr arg4 arg5 s).1 low
      (prctl_set_mm-IsAccepted h i low opt addr arg4 arg5 s accepted)

-- Whatever sequence of `prctl(PR_SET_MM, ...)` calls a process makes, with whatever maps and vectors
-- it has in its memory, the bounds of its address space stay within user space and in order,
-- with the data segment within its limit, and each byte of the last two entries of its auxiliary
-- vector, AT_NULL, stays 0, if they were so.
pub after_set_mm-IsSound :
    (h : MmHost) (l : List (SetMmOption × ℕ × ℕ × ℕ)) (s : MmState) (i : ℕ)
    → IsLaidOut h s.layout
    → IsTerminated h s.saved_auxv
    → 8 * (h.at_vector_size - 2) ≤ i
    → i < 8 * h.at_vector_size
    → IsLaidOut h (after_set_mm h l s).layout × ((after_set_mm h l s).saved_auxv i ≡ 0)
after_set_mm-IsSound h l s i laid ends low high =
    let accepted =
      after_set_mm-IsAccepted h i l s low (validate_laid_out h s.layout laid, ends i low high) in
    (validate-IsLaidOut h (after_set_mm h l s).layout accepted.0, accepted.1)
