-- ===== src/Examples/Dentries.antt =====
-- Opening a file behind its path.
use mathlib.Core.Path.{subst}
use so2_202003745_vd.Base.{
  ◌≡◌, ap, ◌⊎◌, ◌-◌, [], Option, none, some, true, false, pos, neg, espipe, is_zero, inl, inr, refl,
  arith, if◌then◌else◌, ◌&&◌, not,
}
use so2_202003745_vd.Files.{Mode}
use so2_202003745_vd.Files.Transfer.{World, Driver, file_ppos, ksys_pread64, ksys_pwrite64}
use so2_202003745_vd.Opening.Dentry.Callbacks.{stream_open}
use so2_202003745_vd.Opening.Dentry.{
  OpenFile, Held, Open, DentryHost, no_modes, do_dentry_open, file_get_write_access, get_access,
  open_accessed, open_refusal, call_open, opened_file, finish_opened,
}
use so2_202003745_vd.Opening.Dentry.Released.{IsPutting, KeepsAccess, do_dentry_open_released}
use so2_202003745_vd.Opening.Dentry.Usable.{stream_open_no_position}

-- a file that is to be read and written
abbrev fresh_file : OpenFile
fresh_file = record {
  f_mode = record no_modes { fmode_read = true; fmode_write = true };
  fmode_path = false;
  fmode_opened = false;
  fmode_writer = false;
  fmode_atomic_pos = false;
  fmode_can_odirect = false;
  fmode_backing = false;
  o_path = false;
  o_direct = false;
  o_largefile = true;
  o_creat = false;
  o_excl = false;
  o_noctty = false;
  o_trunc = false;
  has_inode = false;
}

abbrev held : Held
held = record {
  readcount = 1;
  writecount = 1;
  mnt_writers = 1;
  backing_writers = 0;
  paths = 1;
  fops = 1;
  cache_drops = 0;
  opens_told = 0;
}

-- `put_file_access`
abbrev put : OpenFile → Held → Held
put f c =
    if f.f_mode.fmode_read && not f.f_mode.fmode_write
    then record c { readcount = c.readcount - 1 }
    else if f.fmode_writer
    then record c {
      writecount = c.writecount - 1;
      mnt_writers = c.mnt_writers - 1;
      backing_writers = if f.fmode_backing then c.backing_writers - 1 else c.backing_writers;
    }
    else c

-- the driver's `open` fails
abbrev host : DentryHost
host = record {
  get_write_access = pos 0;
  mnt_get_write_access = pos 0;
  backing_get_write_access = pos 0;
  is_special = false;
  is_reg = true;
  is_dir = false;
  has_fops = true;
  security_file_open = pos 0;
  break_lease = pos 0;
  fop_open = none;
  has_read = true;
  has_read_iter = false;
  has_write = true;
  has_write_iter = false;
  has_llseek = true;
  has_direct_io = false;
  has_nr_thps = false;
  put_file_access = put;
}

abbrev fails : Open
fails f = (neg 5, f)

host-IsPutting : IsPutting host
host-IsPutting = record {
  reader = λ f c r w. ground arith;
  writer = λ f c w writer. ground arith;
  neither = λ f c other no_writer. ground arith;
}

-- the callback, if there is one
abbrev callback_of : Option Open → Open
callback_of none = fails
callback_of (some k) = k

fails-KeepsAccess : (k : Open) → (some fails ≡ some k) ⊎ (host.fop_open ≡ some k) → KeepsAccess k
fails-KeepsAccess k (inl same) =
    subst KeepsAccess (ap callback_of same) (λ f. (refl, refl, refl, refl))
fails-KeepsAccess k (inr absent) = ground arith

do_dentry_open_released_example :
    ((do_dentry_open host (some fails) fresh_file held).1.fmode_opened ≡ true)
    ⊎ (((do_dentry_open host (some fails) fresh_file held).2 ≡ held)
        × ((do_dentry_open host (some fails) fresh_file held).1.has_inode ≡ false))
do_dentry_open_released_example =
    do_dentry_open_released host (some fails) fresh_file held host-IsPutting fails-KeepsAccess refl

abbrev stream_mode : Mode
stream_mode = record no_modes {
  fmode_read = true;
  fmode_write = true;
  fmode_can_read = true;
  fmode_can_write = true;
  fmode_stream = true;
}

abbrev world : World
world = record {
  file = record {
    f_mode = stream_mode;
    f_pos = pos 0;
    f_version = 0;
    o_largefile = true;
    o_append = false;
  };
  accesses = [];
  notified = [];
  rchar = 0;
  wchar = 0;
  syscr = 0;
  syscw = 0;
}

abbrev driver : Driver
driver = record {
  read = some (λ l p count. (pos count, pos 0));
  read_iter = none;
  write = some (λ l p count. (pos count, pos 0));
  write_iter = none;
  permission = record {
    security_file_permission = λ d. pos 0;
    fsnotify_file_area_perm = λ d p n. pos 0;
  };
  access_ok = λ n. true;
  fdget = true;
}

opens : is_zero (do_dentry_open host (some stream_open) fresh_file held).0 ≡ true
unfolding do_dentry_open get_access file_get_write_access open_accessed open_refusal call_open
    stream_open opened_file finish_opened
opens = refl

opens_mode : stream_mode ≡ (do_dentry_open host (some stream_open) fresh_file held).1.f_mode
unfolding do_dentry_open get_access file_get_write_access open_accessed open_refusal call_open
    stream_open opened_file finish_opened
opens_mode = refl

stream_open_no_position_example :
    (file_ppos world.file ≡ none)
    × (ksys_pread64 driver 5 (pos 3) world ≡ (neg espipe, world))
    × (ksys_pwrite64 driver 5 (pos 3) world ≡ (neg espipe, world))
stream_open_no_position_example =
    stream_open_no_position host fresh_file held driver 5 3 world refl opens opens_mode refl
