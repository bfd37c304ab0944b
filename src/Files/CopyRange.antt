-- ===== src/Files/CopyRange.antt =====
-- Copying from file to file: `vfs_copy_file_range` and the system call `copy_file_range`.
pub mod Bounded
pub mod Advance
use so2_202003745_vd.Base.{
  ℕ, ◌+◌, ◌^◌, ◌-◌, Bool, not, List, ◌∷◌, Option, none, some, ℤ, pos, neg, is_zero, is_nonpos, minz,
  signed64, add64, ◌==◌, if◌then◌else◌, has, einval, ebadf, efault,
}
use so2_202003745_vd.Files.Area.{Direction, reading, writing, Permission, rw_verify_area}
use so2_202003745_vd.Files.Transfer.{bytes, max_rw_count}
use so2_202003745_vd.Files.WriteLimits.{Target}
use so2_202003745_vd.Files.CopyChecks.{End, copy_file_splice, smaller, generic_copy_file_checks}

-- The positions of the open files by their numbers, the notices given (the latest first), what the
-- current task is charged with, the signals SIGXFSZ sent to it, and the offsets written to user
-- space.
pub record CopyWorld : Type 0 where
  pub f_pos : ℕ → ℤ
  pub notified : List (Direction × ℕ)
  pub rchar : ℕ
  pub wchar : ℕ
  pub syscr : ℕ
  pub syscw : ℕ
  pub sigxfsz : ℕ
  pub written_in : Option ℤ
  pub written_out : Option ℤ

-- The two files by their numbers, and what the calls take from the rest of the kernel: the hooks, the
-- limits of the task, the method behind an address, `remap_file_range` of the source if it has
-- one, and `do_splice_direct`, which also leaves two positions.
pub record CopyHost : Type 0 where
  pub in_file : ℕ
  pub out_file : ℕ
  pub permission : Permission
  pub target : Target
  pub call_copy : ℕ → ℤ → ℤ → ℕ → ℕ → ℤ
  pub remap_file_range : Option (ℤ → ℤ → ℤ → ℤ)
  pub splice_direct : ℤ → ℤ → ℕ → ℤ × ℤ × ℤ

-- `~COPY_FILE_SPLICE` in the 32 bits of the flags
abbrev pub not_splice : ℕ
not_splice = 2 ^ 31 - 1

abbrev pub is_same_sb : End → End → Bool
is_same_sb source dest = source.inode.i_sb == dest.inode.i_sb

unfoldable pub splice_copy : CopyHost → End → End → ℕ → ℤ
splice_copy h source dest len =
    (h.splice_direct source.start dest.start (smaller len max_rw_count)).0

unfoldable pub remap_or_splice : CopyHost → (ℤ → ℤ → ℤ → ℤ) → End → End → ℕ → ℤ
remap_or_splice h remap source dest len =
    let ret = remap source.start dest.start (minz (pos max_rw_count) (signed64 len)) in
    if is_nonpos ret then splice_copy h source dest len else ret

-- The part without a method of the destination, if no splice is asked for.
unfoldable pub copy_without_method : CopyHost → End → End → ℕ → ℤ
copy_without_method h source dest len =
    if not (is_same_sb source dest) then pos 0 else elim h.remap_file_range [
      | some remap ↦ remap_or_splice h remap source dest len
      | none ↦ splice_copy h source dest len
    ]

-- The copy itself: the method, or the clone, or the splice.
unfoldable pub copy_data : CopyHost → End → End → ℕ → ℕ → ℤ
copy_data h source dest len flags =
    if has flags copy_file_splice
    then splice_copy h source dest len
    else elim dest.copy_file_range [
      | some method ↦ h.call_copy method source.start dest.start len flags
      | none ↦ copy_without_method h source dest len
    ]

-- The end of the call: the notices and the charge.
unfoldable pub account_copy : CopyHost → ℤ → CopyWorld → CopyWorld
account_copy h ret w = record w {
  notified =
      if is_nonpos ret
      then w.notified
      else (writing, h.out_file) ∷ (reading, h.in_file) ∷ w.notified;
  rchar = w.rchar + bytes ret;
  wchar = w.wchar + bytes ret;
  syscr = w.syscr + 1;
  syscw = w.syscw + 1;
}

-- The checks of both areas, once the count is known: an error or 0.
unfoldable pub copy_areas : CopyHost → End → End → ℕ → ℤ
copy_areas h source dest len =
    let area = rw_verify_area h.permission reading source.file (some source.start) len in
    if not (is_zero area)
    then area
    else rw_verify_area h.permission writing dest.file (some dest.start) len

unfoldable pub vfs_copy_file_range : CopyHost → End → End → ℕ → ℕ → CopyWorld → ℤ × CopyWorld
vfs_copy_file_range h source dest len flags w =
    let (ret, (len', signals)) =
      generic_copy_file_checks h.target source dest len flags w.sigxfsz in
    let signalled : CopyWorld = record w { sigxfsz = signals } in
    let areas = copy_areas h source dest len' in
    let copied = copy_data h source dest len' flags in
    if has flags not_splice
    then (neg einval, w)
    else if not (is_zero ret)
    then (ret, signalled)
    else if not (is_zero areas)
    then (areas, signalled)
    else if len' == 0
    then (pos 0, signalled)
    else (copied, account_copy h copied signalled)

-- An offset of user space: its value, if it can be read, and whether it can be written.
pub record Offset : Type 0 where
  pub value : Option ℤ
  pub is_writable : Bool

-- Where an end of the copy starts: `*off`, or the position of the file; none if `*off` is unreadable.
abbrev pub start_of : Option Offset → ℤ → Option ℤ
start_of none p = some p
start_of (some off) p = off.value

abbrev pub set_pos : ℕ → ℤ → (ℕ → ℤ) → ℕ → ℤ
set_pos file p f other = if other == file then p else f other

-- The end of a copy of `ret` bytes at the source, with its position `p` then: the result, which may
-- become -EFAULT.
unfoldable pub finish_in : CopyHost → Option Offset → ℤ → ℤ × CopyWorld → ℤ × CopyWorld
finish_in h none p (ret, w) = (ret, record w { f_pos = set_pos h.in_file p w.f_pos })
finish_in h (some off) p (ret, w) =
    if off.is_writable then (ret, record w { written_in = some p }) else (neg efault, w)

unfoldable pub finish_out : CopyHost → Option Offset → ℤ → ℤ × CopyWorld → ℤ × CopyWorld
finish_out h none p (ret, w) = (ret, record w { f_pos = set_pos h.out_file p w.f_pos })
finish_out h (some off) p (ret, w) =
    if off.is_writable then (ret, record w { written_out = some p }) else (neg efault, w)

-- The call with both starts known.
unfoldable pub copy_from :
    CopyHost → End → End → Option Offset → Option Offset → ℕ → ℕ → CopyWorld → ℤ × CopyWorld
copy_from h source dest off_in off_out len flags w =
    let (ret, w') = vfs_copy_file_range h source dest len flags w in
    if not (flags == 0)
    then (neg einval, w)
    else if is_nonpos ret
    then (ret, w')
    else finish_out h off_out (add64 dest.start ret)
        (finish_in h off_in (add64 source.start ret) (ret, w'))

-- The files behind the two descriptors, if they are open; `start` of both is set here.
unfoldable pub copy_file_range :
    CopyHost
    → Option End
    → Option Offset
    → Option End
    → Option Offset
    → ℕ
    → ℕ
    → CopyWorld
    → ℤ × CopyWorld
copy_file_range h none off_in f_out off_out len flags w = (neg ebadf, w)
copy_file_range h (some source) off_in none off_out len flags w = (neg ebadf, w)
copy_file_range h (some source) off_in (some dest) off_out len flags w =
    elim (start_of off_in (w.f_pos h.in_file)) [
      | none ↦ (neg efault, w)
      | some pos_in ↦ elim (start_of off_out (w.f_pos h.out_file)) [
        | none ↦ (neg efault, w)
        | some pos_out ↦
            copy_from h (record source { start = pos_in }) (record dest { start = pos_out }) off_in
              off_out len flags w
      ]
    ]
