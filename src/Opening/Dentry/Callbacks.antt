-- ===== src/Opening/Dentry/Callbacks.antt =====
-- The callbacks that a driver may give to an open, and closing.
use so2_202003745_vd.Base.{
  ℕ, Bool, true, false, ◌&&◌, ◌||◌, not, Option, none, some, ℤ, pos, neg, is_zero, ltz, ◌==ℤ◌,
  if◌then◌else◌, eoverflow, ebadf, eintr,
}
use so2_202003745_vd.Files.WriteLimits.{max_non_lfs}
use so2_202003745_vd.Opening.Dentry.{OpenFile, Open}

-- The callbacks for drivers.
unfoldable pub generic_file_open : ℤ → Open
generic_file_open i_size f =
    ((if not f.o_largefile && ltz (pos max_non_lfs) i_size then neg eoverflow else pos 0), f)

unfoldable pub nonseekable_open : Open
nonseekable_open f = (
  pos 0,
  record f {
    f_mode = record f.f_mode { fmode_lseek = false; fmode_pread = false; fmode_pwrite = false };
  },
)

unfoldable pub stream_open : Open
stream_open f = (
  pos 0,
  record f {
    f_mode = record f.f_mode {
      fmode_lseek = false;
      fmode_pread = false;
      fmode_pwrite = false;
      fmode_stream = true;
    };
    fmode_atomic_pos = false;
  },
)

-- `filp_flush`: the answer of the `flush` method, if there is one, or 0; the same where the count of
-- the file is 0, which is an error of the kernel. Whether locks and notices were removed comes after.
unfoldable pub filp_flush : ℕ → Option ℤ → OpenFile → ℤ × Bool
filp_flush file_count flush f =
    if is_zero (pos file_count)
    then (pos 0, false)
    else ((elim flush [ none ↦ pos 0 | some error ↦ error ]), not f.fmode_path)

-- The errors by which a call asks to be restarted.
abbrev pub is_restart : ℤ → Bool
is_restart error = error ==ℤ neg 512 || error ==ℤ neg 513 || error ==ℤ neg 514 || error ==ℤ neg 516

-- `close`, with the file that `file_close_fd` takes out of the table, if it is there; a restart is
-- not possible then.
unfoldable pub close : Option (ℕ × Option ℤ × OpenFile) → ℤ
close none = neg ebadf
close (some (file_count, flush, f)) =
    let retval = (filp_flush file_count flush f).0 in
    if is_restart retval then neg eintr else retval
