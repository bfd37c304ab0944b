-- ===== src/Examples/Opens.antt =====
-- Opening files, changing their size, and asking for access.
use so2_202003745_vd.Base.{
  refl, List, [], ◌∷◌, none, true, false, neg, ok, err, if◌then◌else◌, arith, eperm, ◌==◌, pos,
}
use so2_202003745_vd.Opening.Flags.{OpenHow, no_bits, no_resolve}
use so2_202003745_vd.Opening.Openat2.{OpenFiles, OpenHost, at_fdcwd}
use so2_202003745_vd.Opening.Openat2.Settled.{
  OpenCall, openat_call, openat2_call, creat_call, FindsFree, Settles, after_opens,
  after_opens-Settles,
}

-- O_RDWR | O_SYNC
abbrev synchronous : OpenHow
synchronous = record {
  flags = record no_bits { accmode = 2; o_sync_bit = true };
  mode = 0;
  resolve = no_resolve;
}

-- The third descriptor is given out while it is free.
abbrev open_host : OpenHost
open_host = record {
  getname = λ filename. if filename == 0 then err (neg 14) else ok filename;
  get_unused_fd = λ fds. if fds 3 then err (neg 24) else ok 3;
  do_filp_open = λ dfd tmp op. if op.acc_mode.may_write then ok 7 else err (neg eperm);
  force_o_largefile = true;
}

abbrev no_files_open : OpenFiles
no_files_open = record { open_fds = λ n. false; fd = λ n. none; names = 0; open_call_counter = 5 }

finds_free : FindsFree open_host
finds_free fds n found = ground arith

-- no file is to be had
abbrev full_host : OpenHost
full_host = record open_host { do_filp_open = λ dfd tmp op. err (neg 23) }

-- The first fails for want of a file, the next gets a descriptor, the last has no name.
abbrev open_calls : List (OpenHost × OpenCall)
open_calls =
    (full_host, openat_call at_fdcwd 5 no_bits 0)
    ∷ (open_host, creat_call 5 0o644)
    ∷ (open_host, openat2_call (pos 3) 0 (ok synchronous) 24)
    ∷ []

after_opens-Settles_example : Settles 2 no_files_open (after_opens open_calls no_files_open)
after_opens-Settles_example =
    after_opens-Settles open_calls no_files_open (finds_free, (finds_free, (finds_free, tt)))
      (λ b. refl)

-- Asking for write access: the permission is there with the permitted capabilities, and the file
-- system is read-only.
