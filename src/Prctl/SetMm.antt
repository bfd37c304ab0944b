-- ===== src/Prctl/SetMm.antt =====
-- `prctl_set_mm` and the functions that it calls, Kernel/kernel/sys.c: the bounds of the parts of an
-- address space, its auxiliary vector and its executable file.
pub mod Atomic
pub mod LaidOut
use so2_202003745_vd.Base.{
  ℕ, ◌-◌, ◌*◌, ◌^◌, ◌%◌, Bool, true, false, ◌&&◌, ◌||◌, not, List, [], ◌∷◌, Option, none, some, ℤ,
  pos, neg, is_zero, ltb, leb, ◌==◌, if◌then◌else◌, einval, efault, eperm, cap_sys_resource,
}
use so2_202003745_vd.Prctl.ExeFile.{ExeHost, ExeState, prctl_set_mm_exe_file}

-- The bounds that an address space keeps and that `struct prctl_mm_map` begins with.
pub record Layout : Type 0 where
  pub start_code : ℕ
  pub end_code : ℕ
  pub start_data : ℕ
  pub end_data : ℕ
  pub start_brk : ℕ
  pub brk : ℕ
  pub start_stack : ℕ
  pub arg_start : ℕ
  pub arg_end : ℕ
  pub env_start : ℕ
  pub env_end : ℕ

pub record PrctlMmMap : Type 0 where
  pub layout : Layout
  pub auxv : ℕ
  pub auxv_size : ℕ
  pub exe_fd : ℕ

-- The fields of the current address space that the calls change, the auxiliary vector by its bytes,
-- and the number that was last written to user space.
pub record MmState : Type 0 where
  pub layout : Layout
  pub saved_auxv : ℕ → ℕ
  pub exe : ExeState
  pub written : Option ℕ

-- TASK_SIZE, mmap_min_addr, AT_VECTOR_SIZE, `rlimit(RLIMIT_DATA)`, `check_data_rlimit`, what can be
-- read and written at an address of user space, the capabilities of the caller and `find_vma`.
pub record MmHost : Type 0 where
  pub exe : ExeHost
  pub task_size : ℕ
  pub mmap_min_addr : ℕ
  pub at_vector_size : ℕ
  pub rlimit_data : ℕ
  pub check_data_rlimit : ℕ → ℕ → ℕ → ℕ → ℕ → ℤ
  pub read_map : ℕ → Option PrctlMmMap
  pub read_auxv : ℕ → ℕ → Option (ℕ → ℕ)
  pub can_put_user : ℕ → Bool
  pub capable : ℕ → Bool
  pub is_checkpoint_restore_capable : Bool
  pub has_vma : ℕ → Bool

-- The constants PR_SET_MM_...
pub data SetMmOption : Type 0 where
  set_start_code set_end_code set_start_data set_end_data set_start_stack : SetMmOption
  set_start_brk set_brk set_arg_start set_arg_end set_env_start set_env_end : SetMmOption
  set_auxv set_exe_file set_map set_map_size set_unknown : SetMmOption

abbrev pub Answer : Type 0
Answer = ℤ × MmState

-- sizeof(struct prctl_mm_map)
abbrev pub map_size : ℕ
map_size = 104

-- (u32)-1
abbrev pub no_fd : ℕ
no_fd = 2 ^ 32 - 1

-- sizeof(mm->saved_auxv), of unsigned longs
abbrev pub auxv_bytes : MmHost → ℕ
auxv_bytes h = 8 * h.at_vector_size

-- `offsets`: the members, in that order
abbrev pub members : Layout → List ℕ
members m =
    m.start_code ∷ m.end_code ∷ m.start_data ∷ m.end_data ∷ m.start_brk ∷ m.brk ∷ m.start_stack
    ∷ m.arg_start ∷ m.arg_end ∷ m.env_start ∷ m.env_end ∷ []

abbrev pub is_outside : MmHost → ℕ → Bool
is_outside h val = leb h.task_size val || ltb val h.mmap_min_addr

-- The loop over the members: whether one is outside.
unfoldable pub any_outside : MmHost → List ℕ → Bool
any_outside h [] = false
any_outside h (val ∷ rest) = is_outside h val || any_outside h rest

-- The five `__prctl_check_order`
unfoldable pub is_ordered : Layout → Bool
is_ordered m =
    ltb m.start_code m.end_code
    && leb m.start_data m.end_data
    && leb m.start_brk m.brk
    && leb m.arg_start m.arg_end
    && leb m.env_start m.env_end

unfoldable pub validate_prctl_map_addr : MmHost → Layout → ℤ
validate_prctl_map_addr h m =
    if any_outside h (members m)
    then neg einval
    else if not (is_ordered m)
    then neg einval
    else if not
        (is_zero (h.check_data_rlimit h.rlimit_data m.brk m.start_brk m.end_data m.start_data))
    then neg einval
    else pos 0

-- `user_auxv` filled by `len` bytes over zeros, with AT_NULL in the last two entries
unfoldable pub fill_auxv : MmHost → ℕ → (ℕ → ℕ) → ℕ → ℕ
fill_auxv h len bytes i = if ltb i len && ltb i (8 * (h.at_vector_size - 2)) then bytes i else 0

-- `memcpy(mm->saved_auxv, user_auxv, len)`
abbrev pub copy_bytes : ℕ → (ℕ → ℕ) → (ℕ → ℕ) → ℕ → ℕ
copy_bytes len source target i = if ltb i len then source i else target i

-- The executable file of a map, if it names one.
unfoldable pub map_exe_file : MmHost → PrctlMmMap → ExeState → ℤ × ExeState
map_exe_file h m s =
    if m.exe_fd == no_fd
    then (pos 0, s)
    else if not h.is_checkpoint_restore_capable
    then (neg eperm, s)
    else prctl_set_mm_exe_file h.exe m.exe_fd s

-- The auxiliary vector that a map leaves: the old one if its size is 0; or an error.
unfoldable pub map_auxv : MmHost → PrctlMmMap → (ℕ → ℕ) → ℤ × (ℕ → ℕ)
map_auxv h m saved =
    if m.auxv_size == 0
    then (pos 0, saved)
    else if m.auxv == 0 || ltb (auxv_bytes h) m.auxv_size
    then (neg einval, saved)
    else elim (h.read_auxv m.auxv m.auxv_size) [
      | none ↦ (neg efault, saved)
      | some bytes ↦ (pos 0, copy_bytes (auxv_bytes h) (fill_auxv h m.auxv_size bytes) saved)
    ]

-- The part of `prctl_set_mm_map` after the map is read.
unfoldable pub install_map : MmHost → PrctlMmMap → MmState → Answer
install_map h m s =
    let checked = validate_prctl_map_addr h m.layout in
    let (copied, auxv) = map_auxv h m s.saved_auxv in
    let (replaced, exe) = map_exe_file h m s.exe in
    if not (is_zero checked)
    then (checked, s)
    else if not (is_zero copied)
    then (copied, s)
    else if not (is_zero replaced)
    then (replaced, record s { exe = exe })
    else (pos 0, record s { layout = m.layout; saved_auxv = auxv; exe = exe })

unfoldable pub prctl_set_mm_map : MmHost → Bool → ℕ → ℕ → MmState → Answer
prctl_set_mm_map h asks_size addr data_size s =
    if asks_size
    then if h.can_put_user addr
      then (pos 0, record s { written = some map_size })
      else (neg efault, s)
    else if not (data_size == map_size)
    then (neg einval, s)
    else elim (h.read_map addr) [ none ↦ (neg efault, s) | some m ↦ install_map h m s ]

unfoldable pub prctl_set_auxv : MmHost → ℕ → ℕ → MmState → Answer
prctl_set_auxv h addr len s =
    if ltb (auxv_bytes h) len then (neg einval, s) else elim (h.read_auxv addr len) [
      | none ↦ (neg efault, s)
      | some bytes ↦
          (pos 0, record s { saved_auxv = copy_bytes len (fill_auxv h len bytes) s.saved_auxv })
    ]

-- The first switch: the member that an option names, set to an address.
unfoldable pub with_member : SetMmOption → ℕ → Layout → Option Layout
with_member set_start_code addr m = some (record m { start_code = addr })
with_member set_end_code addr m = some (record m { end_code = addr })
with_member set_start_data addr m = some (record m { start_data = addr })
with_member set_end_data addr m = some (record m { end_data = addr })
with_member set_start_stack addr m = some (record m { start_stack = addr })
with_member set_start_brk addr m = some (record m { start_brk = addr })
with_member set_brk addr m = some (record m { brk = addr })
with_member set_arg_start addr m = some (record m { arg_start = addr })
with_member set_arg_end addr m = some (record m { arg_end = addr })
with_member set_env_start addr m = some (record m { env_start = addr })
with_member set_env_end addr m = some (record m { env_end = addr })
with_member _ addr m = none

-- The second switch: the options whose address must lie below the end of an area.
unfoldable pub needs_vma : SetMmOption → Bool
needs_vma set_start_stack = true
needs_vma set_arg_start = true
needs_vma set_arg_end = true
needs_vma set_env_start = true
needs_vma set_env_end = true
needs_vma _ = false

-- The part of `prctl_set_mm` under the locks.
unfoldable pub set_member : MmHost → SetMmOption → ℕ → MmState → Answer
set_member h opt addr s = elim (with_member opt addr s.layout) [
  | none ↦ (neg einval, s)
  | some m ↦
      if not (is_zero (validate_prctl_map_addr h m))
      then (validate_prctl_map_addr h m, s)
      else if needs_vma opt && not (h.has_vma addr)
      then (neg efault, s)
      else (pos 0, record s { layout = m })
]

-- The options that take `arg4`.
abbrev pub takes_arg4 : SetMmOption → Bool
takes_arg4 set_auxv = true
takes_arg4 set_map = true
takes_arg4 set_map_size = true
takes_arg4 _ = false

-- What is left once the options of CONFIG_CHECKPOINT_RESTORE are served.
unfoldable pub set_privileged : MmHost → SetMmOption → ℕ → ℕ → MmState → Answer
set_privileged h set_exe_file addr arg4 s =
    let (ret, exe) = prctl_set_mm_exe_file h.exe (addr % 2 ^ 32) s.exe in
    (ret, record s { exe = exe })
set_privileged h set_auxv addr arg4 s = prctl_set_auxv h addr arg4 s
set_privileged h opt addr arg4 s =
    if leb h.task_size addr || ltb addr h.mmap_min_addr
    then (neg einval, s)
    else set_member h opt addr s

unfoldable pub serve_set_mm : MmHost → SetMmOption → ℕ → ℕ → MmState → Answer
serve_set_mm h set_map addr arg4 s = prctl_set_mm_map h false addr arg4 s
serve_set_mm h set_map_size addr arg4 s = prctl_set_mm_map h true addr arg4 s
serve_set_mm h opt addr arg4 s =
    if not (h.capable cap_sys_resource) then (neg eperm, s) else set_privileged h opt addr arg4 s

unfoldable pub prctl_set_mm : MmHost → SetMmOption → ℕ → ℕ → ℕ → MmState → Answer
prctl_set_mm h opt addr arg4 arg5 s =
    if not (arg5 == 0) || (not (arg4 == 0) && not (takes_arg4 opt))
    then (neg einval, s)
    else serve_set_mm h opt addr arg4 s
