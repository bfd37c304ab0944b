-- ===== src/Opening/Dentry/Usable.antt =====
-- What may be done with a file that was opened.
use so2_202003745_vd.Base.{
  ℕ, ◌+◌, ap, ◌∙◌, refl, is_zero, if◌then◌else◌, ◌≡◌, ◌&&◌, ◌||◌, true, false, none, some, ℤ, pos,
  neg, espipe, arith,
}
use so2_202003745_vd.Files.Transfer.{World, Driver, file_ppos, ksys_pread64, ksys_pwrite64}
use so2_202003745_vd.Opening.Dentry.Callbacks.{stream_open}
use so2_202003745_vd.Opening.Dentry.{
  OpenFile, Held, Open, DentryHost, get_access, cleanup_file, cleanup_all, opened_file,
  finish_opened, call_open, open_refusal, open_accessed, do_dentry_open, seekable,
}

-- The modes of a file that a callback opened.
abbrev pub CanAsDriver : DentryHost → OpenFile → Type 0
CanAsDriver h f =
    (f.f_mode.fmode_can_read ≡ (f.f_mode.fmode_read && (h.has_read || h.has_read_iter)))
    × (f.f_mode.fmode_can_write ≡ (f.f_mode.fmode_write && (h.has_write || h.has_write_iter)))

-- A callback that leaves the bits of what can be done clear.
abbrev pub LeavesClear : Open → Type 0
LeavesClear callback =
    (f : OpenFile)
    → f.f_mode.fmode_can_read ≡ false
    → f.f_mode.fmode_can_write ≡ false
    → ((callback f).1.f_mode.fmode_can_read ≡ false)
      × ((callback f).1.f_mode.fmode_can_write ≡ false)

get_access-f_mode :
    (h : DentryHost) (f : OpenFile) (c : Held) → (get_access h f c).1.f_mode ≡ f.f_mode
unfolding get_access
get_access-f_mode h f c = ground arith

-- The answer is no 0 where the file was cleaned up.
cleanup_all-nonzero :
    (h : DentryHost) (error : ℤ) (f : OpenFile) (c : Held)
    → is_zero error ≡ false
    → is_zero (cleanup_all h error f c).0 ≡ false
unfolding cleanup_all cleanup_file
cleanup_all-nonzero h error f c failed = ground arith

-- The file that the callback is given.
abbrev asked_file : DentryHost → OpenFile → OpenFile
asked_file h f = record f {
  fmode_atomic_pos = f.fmode_atomic_pos || h.is_reg || h.is_dir;
  f_mode = seekable f.f_mode;
}

-- Where the open of a file with its access succeeds, the file is what the callback made of it, with the
-- modes of what can be done.
open_accessed_done :
    (h : DentryHost) (callback : Open) (f : OpenFile) (c : Held)
    → is_zero (open_accessed h (some callback) f c).0 ≡ true
    → (open_accessed h (some callback) f c).1 ≡ opened_file h (callback (asked_file h f)).1
unfolding open_accessed finish_opened call_open
open_accessed_done h callback f c done =
    let (error, g) = callback (asked_file h f) in
    let placed : OpenFile = record f {
      fmode_atomic_pos = f.fmode_atomic_pos || h.is_reg || h.is_dir;
    } in
    let got : Held = record c { fops = if h.has_fops then c.fops + 1 else c.fops } in
    ground
      (arith, cleanup_all-nonzero h (open_refusal h) placed got, cleanup_all-nonzero h error g got)

-- The same for the whole open.
do_dentry_open_done :
    (h : DentryHost) (callback : Open) (f : OpenFile) (c : Held)
    → f.o_path ≡ false
    → is_zero (do_dentry_open h (some callback) f c).0 ≡ true
    → (g : OpenFile) × (g.f_mode ≡ f.f_mode)
      × ((do_dentry_open h (some callback) f c).1 ≡ opened_file h (callback (asked_file h g)).1)
unfolding do_dentry_open cleanup_file
do_dentry_open_done h callback f c real done =
    let there : OpenFile = record f { has_inode = true } in
    let pathed : Held = record c { paths = c.paths + 1 } in
    let (error, g, c') = get_access h there pathed in
    (g, get_access-f_mode h there pathed, ground (arith, open_accessed_done h callback g c'))

opened_can :
    (h : DentryHost) (g : OpenFile)
    → g.f_mode.fmode_can_read ≡ false
    → g.f_mode.fmode_can_write ≡ false
    → CanAsDriver h (opened_file h g)
unfolding opened_file
opened_can h g no_read no_write = ground arith

-- A fresh file that `do_dentry_open` opened, not as a mere path, can be read exactly if its mode is for
-- reading and its driver has one of the two methods that read, and written likewise; so
-- a read that passes the test of FMODE_CAN_READ finds a method. The callback leaves these bits
-- clear.
pub do_dentry_open_can :
    (h : DentryHost) (callback : Open) (f : OpenFile) (c : Held)
    → LeavesClear callback
    → f.f_mode.fmode_can_read ≡ false
    → f.f_mode.fmode_can_write ≡ false
    → f.o_path ≡ false
    → is_zero (do_dentry_open h (some callback) f c).0 ≡ true
    → CanAsDriver h (do_dentry_open h (some callback) f c).1
do_dentry_open_can h callback f c leaves no_read no_write real done =
    let (g, mode, same) = do_dentry_open_done h callback f c real done in
    let (clear_read, clear_write) =
      leaves (asked_file h g) (ap (λ m. m.fmode_can_read) mode ∙ no_read)
        (ap (λ m. m.fmode_can_write) mode ∙ no_write) in
    rw same (opened_can h (callback (asked_file h g)).1 clear_read clear_write)

-- The modes that `stream_open` leaves.
stream_modes :
    (h : DentryHost) (g : OpenFile)
    → let m = (opened_file h (stream_open (asked_file h g)).1).f_mode in
      (m.fmode_stream ≡ true) × (m.fmode_pread ≡ false) × (m.fmode_pwrite ≡ false)
unfolding opened_file stream_open
stream_modes h g = (refl, refl, refl)

-- A file that was opened with `stream_open`, not as a mere path, has no position: reads and writes at
-- its position are given none, and those at an offset fail with -ESPIPE and change nothing.
pub stream_open_no_position :
    (h : DentryHost) (f : OpenFile) (c : Held) (k : Driver) (count p : ℕ) (w : World)
    → f.o_path ≡ false
    → is_zero (do_dentry_open h (some stream_open) f c).0 ≡ true
    → w.file.f_mode ≡ (do_dentry_open h (some stream_open) f c).1.f_mode
    → k.fdget ≡ true
    → (file_ppos w.file ≡ none)
      × (ksys_pread64 k count (pos p) w ≡ (neg espipe, w))
      × (ksys_pwrite64 k count (pos p) w ≡ (neg espipe, w))
unfolding ksys_pread64 ksys_pwrite64
stream_open_no_position h f c k count p w real done is_mode open_there =
    let (g, mode, same) = do_dentry_open_done h stream_open f c real done in
    ground (arith, stream_modes h g, ap (λ x. x.f_mode) same)
