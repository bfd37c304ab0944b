-- ===== src/Examples/Vectors.antt =====
-- Reading several buffers, and sending.
use mathlib.Core.Path.{subst}
use so2_202003745_vd.Base.{
  ℕ, ◌≡◌, ◌+◌, ap, List, [], ◌∷◌, Option, none, some, true, false, ℤ, pos, negsuc, ok, inr, refl,
  arith,
}
use so2_202003745_vd.Files.{Mode, File}
use so2_202003745_vd.Files.Transfer.{World, Driver, Method}
use so2_202003745_vd.Files.Transfer.Advance.{KeepsCount, Advances}
use so2_202003745_vd.Files.Transfer.Positional.{at}
use so2_202003745_vd.Files.Transfer.Vector.{FailsInPlace}
use so2_202003745_vd.Files.Vectors.{Vectored, do_readv, do_preadv}
use so2_202003745_vd.Files.Vectors.Agreement.{do_preadv-do_readv}
use so2_202003745_vd.Files.Vectors.Advance.{IsVectorable, do_readv-Advances}
use so2_202003745_vd.Files.CopyRange.{CopyWorld}
use so2_202003745_vd.Files.Sendfile.{SendHost, do_sendfile}
use so2_202003745_vd.Files.Sendfile.Advance.{IsSplicing, Sends, do_sendfile-Sends}

abbrev every_mode : Mode
every_mode = record {
  fmode_read = true;
  fmode_write = true;
  fmode_lseek = true;
  fmode_pread = true;
  fmode_pwrite = true;
  fmode_can_read = true;
  fmode_can_write = true;
  fmode_stream = false;
  fmode_unsigned_offset = false;
  fmode_buf_wasync = false;
}

abbrev file_at_7 : File
file_at_7 = record {
  f_mode = every_mode;
  f_pos = pos 7;
  f_version = 0;
  o_largefile = true;
  o_append = false;
}

abbrev world : World
world = record {
  file = file_at_7;
  accesses = [];
  notified = [];
  rchar = 0;
  wchar = 0;
  syscr = 0;
  syscw = 0;
}

-- moves as much as it is asked for
abbrev moves_all : Method
moves_all l none count = (pos count, pos count)
moves_all l (some (pos p)) count = (pos count, pos (p + count))
moves_all l (some (negsuc p)) count = (pos 0, negsuc p)

abbrev driver : Driver
driver = record {
  read = some moves_all;
  read_iter = none;
  write = some moves_all;
  write_iter = none;
  permission = record {
    security_file_permission = λ d. pos 0;
    fsnotify_file_area_perm = λ d p n. pos 0;
  };
  access_ok = λ n. true;
  fdget = true;
}

abbrev three_buffers : List ℕ
three_buffers = 3 ∷ 0 ∷ 5 ∷ []

abbrev vectored : Vectored
vectored = record {
  driver = driver;
  import_iovec = ok three_buffers;
  kiocb_set_rw_flags = λ flags. pos 0;
  under_flags = λ flags f. f;
}

moves_all-KeepsCount : KeepsCount moves_all
moves_all-KeepsCount l p count = inr (refl, omega arith, refl)

moves_all-FailsInPlace : FailsInPlace moves_all
moves_all-FailsInPlace l p count failed = ground arith

do_preadv-do_readv_example : do_preadv vectored (pos 40) 0 world ≡ (
  (do_readv vectored 0 (at (pos 40) world)).0,
  record (do_readv vectored 0 (at (pos 40) world)).1 { file = file_at_7 },
)
do_preadv-do_readv_example = do_preadv-do_readv vectored (pos 40) 0 world refl refl refl refl

-- the method, if there is one
abbrev method_of : Option Method → Method
method_of none = moves_all
method_of (some f) = f

vectored-IsVectorable : IsVectorable vectored 0
vectored-IsVectorable = record {
  iter = λ f has. ground arith;
  plain = λ f has. subst KeepsCount (ap method_of has) moves_all-KeepsCount;
  in_place = λ f has. subst FailsInPlace (ap method_of has) moves_all-FailsInPlace;
  refused = refl;
}

do_readv-Advances_example : Advances 7 8 world (do_readv vectored 0 world)
do_readv-Advances_example =
    do_readv-Advances vectored three_buffers 0 7 world vectored-IsVectorable refl (omega arith) refl
      refl

abbrev both_at_7 : CopyWorld
both_at_7 = record {
  f_pos = λ file. pos 7;
  notified = [];
  rchar = 0;
  wchar = 0;
  syscr = 0;
  syscw = 0;
  sigxfsz = 0;
  written_in = none;
  written_out = none;
}

abbrev moved : ℤ → ℕ → ℤ
moved (pos p) count = pos (p + count)
moved (negsuc p) count = negsuc p

-- Whatever is asked for is spliced.
abbrev send_host : SendHost
send_host = record {
  in_file = 1;
  out_file = 2;
  permission = driver.permission;
  in_maxbytes = pos 1000;
  out_maxbytes = pos 500;
  is_pipe = false;
  is_nonblock = false;
  splice_direct = λ p q count. (pos count, moved p count, moved q count);
  splice_file_to_pipe = λ p count b. (pos count, moved p count);
}

send_host-IsSplicing : IsSplicing send_host
send_host-IsSplicing = record {
  direct = λ a q count. ground arith;
  to_pipe = λ a count b. ground arith;
}

do_sendfile-Sends_example :
    Sends send_host 7 20 500 both_at_7
      (do_sendfile send_host (some file_at_7) (some file_at_7) none 20 (pos 0) both_at_7)
do_sendfile-Sends_example =
    do_sendfile-Sends send_host (some file_at_7) (some file_at_7) none 7 20 500 (pos 0) both_at_7
      send_host-IsSplicing (omega arith) (omega arith) refl refl
