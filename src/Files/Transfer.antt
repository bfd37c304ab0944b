-- ===== src/Files/Transfer.antt =====
-- Reading and writing: `vfs_read`, `vfs_write`, what the kernel's own readers call, and the system
-- calls that move a file's position or leave it.
pub mod Advance
pub mod Positional
pub mod Vector
use so2_202003745_vd.Base.{
  ℕ, ◌+◌, List, [], ◌∷◌, Option, none, some, Bool, true, false, ◌&&◌, ◌||◌, not, ℤ, pos, negsuc,
  neg, is_neg, is_zero, is_nonpos, is_some, ltb, if◌then◌else◌, einval, ebadf, efault, espipe,
}
use so2_202003745_vd.Files.{File, Mode}
use so2_202003745_vd.Files.Area.{
  Direction, reading, writing, Permission, rw_verify_area, position_check, range_check,
}

-- INT_MAX & PAGE_MASK
abbrev pub max_rw_count : ℕ
max_rw_count = 0x7fff_f000

-- A call of a file's method: the direction, the position, if one is given, and the count.
pub record Access : Type 0 where
  pub direction : Direction
  pub position : Option ℤ
  pub count : ℕ

-- The file, the calls of its methods (the latest first), the notices given and what the task is
-- charged with.
pub record World : Type 0 where
  pub file : File
  pub accesses : List Access
  pub notified : List Direction
  pub rchar : ℕ
  pub wchar : ℕ
  pub syscr : ℕ
  pub syscw : ℕ

-- A method answers, after the accesses that went before, with a count or an error and the position
-- that it leaves.
abbrev pub Method : Type 0
Method = List Access → Option ℤ → ℕ → ℤ × ℤ

-- The methods of the file, if it has them, and what the calls take from the rest of the kernel.
pub record Driver : Type 0 where
  pub read : Option Method
  pub read_iter : Option Method
  pub write : Option Method
  pub write_iter : Option Method
  pub permission : Permission
  pub access_ok : ℕ → Bool
  -- whether the descriptor is open
  pub fdget : Bool

-- `*ppos = p`, if there is a position
abbrev pub assign : Option ℤ → ℤ → Option ℤ
assign none p = none
assign (some _) p = some p

-- `ppos ? *ppos : 0`
abbrev pub or_start : Option ℤ → ℤ
or_start none = pos 0
or_start (some p) = p

-- A result: the value, the position behind `ppos`, and the world.
abbrev pub Outcome : Type 0
Outcome = ℤ × Option ℤ × World

abbrev pub record_access : Direction → Option ℤ → ℕ → World → World
record_access d ppos count w = record w {
  accesses = record { direction = d; position = ppos; count = count } ∷ w.accesses;
}

-- `file->f_op->read(file, buf, count, pos)` and the like
unfoldable pub call_method : Direction → Method → ℕ → Option ℤ → World → Outcome
call_method d f count ppos w =
    let (ret, p) = f w.accesses ppos count in (ret, assign ppos p, record_access d ppos count w)

unfoldable pub new_sync_read : Method → ℕ → Option ℤ → World → Outcome
new_sync_read f count ppos w =
    let (ret, p) = f w.accesses (some (or_start ppos)) count in
    (ret, assign ppos p, record_access reading (some (or_start ppos)) count w)

unfoldable pub new_sync_write : Method → ℕ → Option ℤ → World → Outcome
new_sync_write f count ppos w =
    let (ret, p) = f w.accesses (some (or_start ppos)) count in
    (
      ret,
      if is_nonpos ret then ppos else assign ppos p,
      record_access writing (some (or_start ppos)) count w,
    )

abbrev pub bytes : ℤ → ℕ
bytes (pos n) = n
bytes (negsuc n) = 0

-- `fsnotify_access` and `add_rchar` on success, and `inc_syscr`
unfoldable pub account_read : ℤ → World → World
account_read ret w = record w {
  notified = if is_nonpos ret then w.notified else reading ∷ w.notified;
  rchar = w.rchar + bytes ret;
  syscr = w.syscr + 1;
}

-- `fsnotify_modify` and `add_wchar` on success, and `inc_syscw`
unfoldable pub account_write : ℤ → World → World
account_write ret w = record w {
  notified = if is_nonpos ret then w.notified else writing ∷ w.notified;
  wchar = w.wchar + bytes ret;
  syscw = w.syscw + 1;
}

-- `if (count > MAX_RW_COUNT) count = MAX_RW_COUNT;`
abbrev pub capped : ℕ → ℕ
capped count = if ltb max_rw_count count then max_rw_count else count

-- The choice of the method.
unfoldable pub dispatch_read : Driver → ℕ → Option ℤ → World → Outcome
unfolding call_method new_sync_read
dispatch_read k count ppos w = elim k.read [
  | some f ↦ call_method reading f count ppos w
  | none ↦ elim k.read_iter [ some f ↦ new_sync_read f count ppos w | none ↦ (neg einval, ppos, w) ]
]

unfoldable pub dispatch_write : Driver → ℕ → Option ℤ → World → Outcome
unfolding call_method new_sync_write
dispatch_write k count ppos w = elim k.write [
  | some f ↦ call_method writing f count ppos w
  | none ↦ elim k.write_iter [
    | some f ↦ new_sync_write f count ppos w
    | none ↦ (neg einval, ppos, w)
  ]
]

unfoldable pub vfs_read : Driver → ℕ → Option ℤ → World → Outcome
unfolding account_read
vfs_read k count ppos w =
    let area = rw_verify_area k.permission reading w.file ppos count in
    let (ret, ppos', w') = dispatch_read k (capped count) ppos w in
    if not w.file.f_mode.fmode_read
    then (neg ebadf, ppos, w)
    else if not w.file.f_mode.fmode_can_read
    then (neg einval, ppos, w)
    else if not (k.access_ok count)
    then (neg efault, ppos, w)
    else if not (is_zero area)
    then (area, ppos, w)
    else (ret, ppos', account_read ret w')

unfoldable pub vfs_write : Driver → ℕ → Option ℤ → World → Outcome
unfolding account_write
vfs_write k count ppos w =
    let area = rw_verify_area k.permission writing w.file ppos count in
    let (ret, ppos', w') = dispatch_write k (capped count) ppos w in
    if not w.file.f_mode.fmode_write
    then (neg ebadf, ppos, w)
    else if not w.file.f_mode.fmode_can_write
    then (neg einval, ppos, w)
    else if not (k.access_ok count)
    then (neg efault, ppos, w)
    else if not (is_zero area)
    then (area, ppos, w)
    else (ret, ppos', account_write ret w')

-- `__kernel_read`: the method is `read_iter`, and there must be no `read` beside it.
unfoldable pub kernel_read_checked : Driver → ℕ → Option ℤ → World → Outcome
unfolding account_read
kernel_read_checked k count ppos w =
    if not w.file.f_mode.fmode_read || not w.file.f_mode.fmode_can_read || is_some k.read
    then (neg einval, ppos, w)
    else elim k.read_iter [
      | none ↦ (neg einval, ppos, w)
      | some f ↦
          let (ret, p) = f w.accesses (some (or_start ppos)) (capped count) in
          (
            ret,
            if is_nonpos ret then ppos else assign ppos p,
            account_read ret (record_access reading (some (or_start ppos)) (capped count) w),
          )
    ]

unfoldable pub kernel_read : Driver → ℕ → Option ℤ → World → Outcome
unfolding kernel_read_checked
kernel_read k count ppos w =
    let area = rw_verify_area k.permission reading w.file ppos count in
    if not (is_zero area) then (area, ppos, w) else kernel_read_checked k count ppos w

-- `__kernel_write` and `__kernel_write_iter`
unfoldable pub kernel_write_checked : Driver → ℕ → Option ℤ → World → Outcome
unfolding account_write
kernel_write_checked k count ppos w =
    if not w.file.f_mode.fmode_write
    then (neg ebadf, ppos, w)
    else if not w.file.f_mode.fmode_can_write || is_some k.write
    then (neg einval, ppos, w)
    else elim k.write_iter [
      | none ↦ (neg einval, ppos, w)
      | some f ↦
          let (ret, p) = f w.accesses (some (or_start ppos)) (capped count) in
          (
            ret,
            if is_nonpos ret then ppos else assign ppos p,
            account_write ret (record_access writing (some (or_start ppos)) (capped count) w),
          )
    ]

unfoldable pub kernel_write : Driver → ℕ → Option ℤ → World → Outcome
unfolding kernel_write_checked
kernel_write k count ppos w =
    let area = rw_verify_area k.permission writing w.file ppos count in
    if not (is_zero area) then (area, ppos, w) else kernel_write_checked k count ppos w

-- `file_ppos`
abbrev pub file_ppos : File → Option ℤ
file_ppos file = if file.f_mode.fmode_stream then none else some file.f_pos

-- `if (ret >= 0 && ppos) f.file->f_pos = pos;`
abbrev pub store_pos : ℤ → Option ℤ → World → World
store_pos ret none w = w
store_pos ret (some p) w = if is_neg ret then w else record w { file = record w.file { f_pos = p } }

unfoldable pub ksys_read : Driver → ℕ → World → ℤ × World
ksys_read k count w =
    let (ret, ppos, w') = vfs_read k count (file_ppos w.file) w in
    if k.fdget then (ret, store_pos ret ppos w') else (neg ebadf, w)

unfoldable pub ksys_write : Driver → ℕ → World → ℤ × World
ksys_write k count w =
    let (ret, ppos, w') = vfs_write k count (file_ppos w.file) w in
    if k.fdget then (ret, store_pos ret ppos w') else (neg ebadf, w)

unfoldable pub ksys_pread64 : Driver → ℕ → ℤ → World → ℤ × World
ksys_pread64 k count p w =
    let (ret, ppos, w') = vfs_read k count (some p) w in
    if is_neg p
    then (neg einval, w)
    else if not k.fdget
    then (neg ebadf, w)
    else if not w.file.f_mode.fmode_pread
    then (neg espipe, w)
    else (ret, w')

unfoldable pub ksys_pwrite64 : Driver → ℕ → ℤ → World → ℤ × World
ksys_pwrite64 k count p w =
    let (ret, ppos, w') = vfs_write k count (some p) w in
    if is_neg p
    then (neg einval, w)
    else if not k.fdget
    then (neg ebadf, w)
    else if not w.file.f_mode.fmode_pwrite
    then (neg espipe, w)
    else (ret, w')
