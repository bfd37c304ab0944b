-- ===== src/Files/WriteLimits.antt =====
-- How far a file may be written: `generic_write_check_limits` and the checks before a write.
pub mod Bounds
pub mod AfterPrlimit
use so2_202003745_vd.Base.{
  ℕ, ◌+◌, ◌-◌, ◌^◌, Bool, true, false, ◌&&◌, ◌||◌, not, ℤ, pos, negsuc, neg, is_zero, is_neg, ltz,
  lez, minz, sub64, signed64, to_word, ◌==◌, if◌then◌else◌, Result, Call, ok, err, ◌>>=◌, ◌>>◌,
  pure, gets, modify, return_if, check, efbig, etxtbsy, einval,
}
use so2_202003745_vd.Rlimit.{Machine, rlim_infinity}
use so2_202003745_vd.Files.{File}

-- RLIMIT_FSIZE
abbrev pub rlimit_fsize : ℕ
rlimit_fsize = 1

-- MAX_NON_LFS
abbrev pub max_non_lfs : ℕ
max_non_lfs = 2 ^ 31 - 1

-- What the checks read: the limits of the current task (`rlimit`), and the inode behind the file.
pub record Target : Type 0 where
  pub machine : Machine
  -- `current->signal`
  pub signal : ℕ
  pub i_size : ℤ
  pub s_maxbytes : ℤ
  pub is_swapfile : Bool

-- `*count`, and how often SIGXFSZ was sent to the current task
pub record Request : Type 0 where
  pub count : ℤ
  pub sigxfsz : ℕ

-- `rlimit(RLIMIT_FSIZE)`, an unsigned long
abbrev pub fsize_limit : Target → ℕ
fsize_limit t = (t.machine.rlim t.signal rlimit_fsize).rlim_cur

-- The part under `if (limit != RLIM_INFINITY)`; `limit` is read as a `loff_t`. The result is an
-- error or 0.
unfoldable pub check_fsize : ℕ → ℤ → Request → ℤ × Request
check_fsize limit p r =
    if limit == rlim_infinity
    then (pos 0, r)
    else if lez (signed64 limit) p
    then (neg efbig, record r { sigxfsz = r.sigxfsz + 1 })
    else (pos 0, record r { count = minz r.count (sub64 (signed64 limit) p) })

abbrev pub max_size : Target → File → ℤ
max_size t file = if file.o_largefile then t.s_maxbytes else pos max_non_lfs

unfoldable pub generic_write_check_limits : Target → File → ℤ → Request → ℤ × Request
generic_write_check_limits t file p r =
    let (ret, r') = check_fsize (fsize_limit t) p r in
    if not (is_zero ret)
    then (ret, r')
    else if lez (max_size t file) p
    then (neg efbig, r')
    else (pos 0, record r' { count = minz r'.count (sub64 (max_size t file) p) })

-- `struct kiocb`
pub record Kiocb : Type 0 where
  pub ki_pos : ℤ
  pub iocb_append : Bool
  pub iocb_nowait : Bool
  pub iocb_direct : Bool

-- Where a write starts: at the end of the file if it appends.
abbrev pub write_pos : Target → Kiocb → ℤ
write_pos t iocb = if iocb.iocb_append then t.i_size else iocb.ki_pos

abbrev pub is_bad_nowait : File → Kiocb → Bool
is_bad_nowait file iocb = iocb.iocb_nowait && not (iocb.iocb_direct || file.f_mode.fmode_buf_wasync)

-- `generic_write_checks_count`: the result, the request and the position then
unfoldable pub generic_write_checks_count : Target → File → Kiocb → Request → (ℤ × Request) × Kiocb
generic_write_checks_count t file iocb r =
    let moved = record iocb { ki_pos = write_pos t iocb } in
    let (ret, r') = generic_write_check_limits t file (write_pos t iocb) r in
    if t.is_swapfile
    then ((neg etxtbsy, r), iocb)
    else if is_zero r.count
    then ((pos 0, r), iocb)
    else if is_bad_nowait file iocb
    then ((neg einval, r), moved)
    else ((ret, r'), moved)

-- `generic_write_checks`: the bytes of the iterator are cut to the count and returned
unfoldable pub generic_write_checks : Target → File → Kiocb → Request → (ℤ × Request) × Kiocb
generic_write_checks t file iocb r =
    let ((ret, r'), iocb') = generic_write_checks_count t file iocb r in
    ((if is_zero ret then minz r.count r'.count else ret, r'), iocb')
