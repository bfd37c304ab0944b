-- ===== src/Files/Vectors.antt =====
-- Reading and writing several buffers at once: the calls of the `iov_iter` kind, `readv`, `preadv`,
-- `preadv2` and their counterparts that write.
pub mod Calls
pub mod Agreement
pub mod Advance
use so2_202003745_vd.Base.{
  ℕ, ◌+◌, List, ◌∷◌, Option, none, some, not, ℤ, pos, neg, is_neg, is_zero, is_nonpos, ◌==◌,
  if◌then◌else◌, Result, ok, err, einval, ebadf, espipe,
}
use so2_202003745_vd.Files.Area.{Direction, reading, writing, rw_verify_area}
use so2_202003745_vd.Files.Transfer.{
  World, Driver, Method, Outcome, bytes, assign, or_start, record_access, file_ppos, store_pos,
}
use so2_202003745_vd.Files.Transfer.Vector.{iov_iter_count, do_loop_readv_writev}

-- What the calls take from the rest of the kernel: the driver of the file, the lengths of the
-- buffers that `import_iovec` finds or its error, `kiocb_set_rw_flags`, and what a method is when
-- it is called with flags.
pub record Vectored : Type 0 where
  pub driver : Driver
  pub import_iovec : Result (List ℕ)
  pub kiocb_set_rw_flags : ℕ → ℤ
  pub under_flags : ℕ → Method → Method

-- `fsnotify_access` and `fsnotify_modify`
abbrev pub notify : Direction → World → World
notify d w = record w { notified = d ∷ w.notified }

-- `call_read_iter` and `call_write_iter`, on a `kiocb` at a position
abbrev pub call_iter : Direction → Method → ℕ → ℤ → World → ℤ × ℤ × World
call_iter d f total start w =
    let (ret, p) = f w.accesses (some start) total in (ret, p, record_access d (some start) total w)

unfoldable pub do_iter_readv_writev :
    Vectored → Direction → Method → ℕ → ℕ → Option ℤ → World → Outcome
do_iter_readv_writev v d f total flags ppos w =
    let refused = v.kiocb_set_rw_flags flags in
    let (ret, p, w') = call_iter d (v.under_flags flags f) total (or_start ppos) w in
    if not (is_zero refused) then (refused, ppos, w) else (ret, assign ppos p, w')

-- The notice at the end of a read, and that at the end of a write.
abbrev pub notify_read : Outcome → Outcome
notify_read (ret, ppos, w) = (ret, ppos, if is_neg ret then w else notify reading w)

abbrev pub notify_write : Outcome → Outcome
notify_write (ret, ppos, w) = (ret, ppos, if is_nonpos ret then w else notify writing w)

unfoldable pub vfs_iter_read : Vectored → List ℕ → ℕ → Option ℤ → World → Outcome
vfs_iter_read v lens flags ppos w =
    let total = iov_iter_count lens in
    let area = rw_verify_area v.driver.permission reading w.file ppos total in
    elim v.driver.read_iter [
      | none ↦ (neg einval, ppos, w)
      | some f ↦
          if not w.file.f_mode.fmode_read
          then (neg ebadf, ppos, w)
          else if not w.file.f_mode.fmode_can_read
          then (neg einval, ppos, w)
          else if total == 0
          then notify_read (pos 0, ppos, w)
          else if is_neg area
          then (area, ppos, w)
          else notify_read (do_iter_readv_writev v reading f total flags ppos w)
    ]

-- `file_start_write` and `file_end_write` only hold off the freezing of the file system.
unfoldable pub vfs_iter_write : Vectored → List ℕ → ℕ → Option ℤ → World → Outcome
vfs_iter_write v lens flags ppos w =
    let total = iov_iter_count lens in
    let area = rw_verify_area v.driver.permission writing w.file ppos total in
    if not w.file.f_mode.fmode_write
    then (neg ebadf, ppos, w)
    else if not w.file.f_mode.fmode_can_write
    then (neg einval, ppos, w)
    else elim v.driver.write_iter [
      | none ↦ (neg einval, ppos, w)
      | some f ↦
          if total == 0
          then (pos 0, ppos, w)
          else if is_neg area
          then (area, ppos, w)
          else notify_write (do_iter_readv_writev v writing f total flags ppos w)
    ]

-- The `kiocb` is the caller's; its position is `ki_pos`.
unfoldable pub vfs_iocb_iter_read : Vectored → List ℕ → ℤ → World → Outcome
vfs_iocb_iter_read v lens ki_pos w =
    let total = iov_iter_count lens in
    let area = rw_verify_area v.driver.permission reading w.file (some ki_pos) total in
    elim v.driver.read_iter [
      | none ↦ (neg einval, some ki_pos, w)
      | some f ↦
          let (ret, p, w') = call_iter reading f total ki_pos w in
          if not w.file.f_mode.fmode_read
          then (neg ebadf, some ki_pos, w)
          else if not w.file.f_mode.fmode_can_read
          then (neg einval, some ki_pos, w)
          else if total == 0
          then notify_read (pos 0, some ki_pos, w)
          else if is_neg area
          then (area, some ki_pos, w)
          else notify_read (ret, some p, w')
    ]

unfoldable pub vfs_iocb_iter_write : Vectored → List ℕ → ℤ → World → Outcome
vfs_iocb_iter_write v lens ki_pos w =
    let total = iov_iter_count lens in
    let area = rw_verify_area v.driver.permission writing w.file (some ki_pos) total in
    elim v.driver.write_iter [
      | none ↦ (neg einval, some ki_pos, w)
      | some f ↦
          let (ret, p, w') = call_iter writing f total ki_pos w in
          if not w.file.f_mode.fmode_write
          then (neg ebadf, some ki_pos, w)
          else if not w.file.f_mode.fmode_can_write
          then (neg einval, some ki_pos, w)
          else if total == 0
          then (pos 0, some ki_pos, w)
          else if is_neg area
          then (area, some ki_pos, w)
          else notify_write (ret, some p, w')
    ]

-- The choice of the method. A file with neither method has no FMODE_CAN_READ, and does not come
-- here; the model answers as `vfs_read` does.
unfoldable pub move_buffers :
    Vectored → Direction → Option Method → Option Method → List ℕ → ℕ → Option ℤ → World → Outcome
move_buffers v d iter plain lens flags ppos w = elim iter [
  | some f ↦ do_iter_readv_writev v d f (iov_iter_count lens) flags ppos w
  | none ↦ elim plain [
    | some f ↦ do_loop_readv_writev d f lens flags ppos w
    | none ↦ (neg einval, ppos, w)
  ]
]

unfoldable pub vfs_readv : Vectored → ℕ → Option ℤ → World → Outcome
vfs_readv v flags ppos w =
    if not w.file.f_mode.fmode_read
    then (neg ebadf, ppos, w)
    else if not w.file.f_mode.fmode_can_read
    then (neg einval, ppos, w)
    else elim v.import_iovec [
      | err e ↦ (e, ppos, w)
      | ok lens ↦
          let total = iov_iter_count lens in
          let area = rw_verify_area v.driver.permission reading w.file ppos total in
          let moved = move_buffers v reading v.driver.read_iter v.driver.read lens flags ppos w in
          if total == 0
          then notify_read (pos 0, ppos, w)
          else if is_neg area
          then (area, ppos, w)
          else notify_read moved
    ]

unfoldable pub vfs_writev : Vectored → ℕ → Option ℤ → World → Outcome
vfs_writev v flags ppos w =
    if not w.file.f_mode.fmode_write
    then (neg ebadf, ppos, w)
    else if not w.file.f_mode.fmode_can_write
    then (neg einval, ppos, w)
    else elim v.import_iovec [
      | err e ↦ (e, ppos, w)
      | ok lens ↦
          let total = iov_iter_count lens in
          let area = rw_verify_area v.driver.permission writing w.file ppos total in
          let moved = move_buffers v writing v.driver.write_iter v.driver.write lens flags ppos w in
          if total == 0
          then (pos 0, ppos, w)
          else if is_neg area
          then (area, ppos, w)
          else notify_write moved
    ]

-- `if (ret > 0) add_rchar(current, ret); inc_syscr(current);`
abbrev pub charge_read : ℤ → World → World
charge_read ret w = record w { rchar = w.rchar + bytes ret; syscr = w.syscr + 1 }

abbrev pub charge_write : ℤ → World → World
charge_write ret w = record w { wchar = w.wchar + bytes ret; syscw = w.syscw + 1 }

unfoldable pub do_readv : Vectored → ℕ → World → ℤ × World
do_readv v flags w =
    let (ret, ppos, w') = vfs_readv v flags (file_ppos w.file) w in
    if v.driver.fdget
    then (ret, charge_read ret (store_pos ret ppos w'))
    else (neg ebadf, charge_read (neg ebadf) w)

unfoldable pub do_writev : Vectored → ℕ → World → ℤ × World
do_writev v flags w =
    let (ret, ppos, w') = vfs_writev v flags (file_ppos w.file) w in
    if v.driver.fdget
    then (ret, charge_write ret (store_pos ret ppos w'))
    else (neg ebadf, charge_write (neg ebadf) w)

unfoldable pub do_preadv : Vectored → ℤ → ℕ → World → ℤ × World
do_preadv v p flags w =
    let (ret, ppos, w') = vfs_readv v flags (some p) w in
    if is_neg p
    then (neg einval, w)
    else if not v.driver.fdget
    then (neg ebadf, charge_read (neg ebadf) w)
    else if not w.file.f_mode.fmode_pread
    then (neg espipe, charge_read (neg espipe) w)
    else (ret, charge_read ret w')

unfoldable pub do_pwritev : Vectored → ℤ → ℕ → World → ℤ × World
do_pwritev v p flags w =
    let (ret, ppos, w') = vfs_writev v flags (some p) w in
    if is_neg p
    then (neg einval, w)
    else if not v.driver.fdget
    then (neg ebadf, charge_write (neg ebadf) w)
    else if not w.file.f_mode.fmode_pwrite
    then (neg espipe, charge_write (neg espipe) w)
    else (ret, charge_write ret w')
