-- ===== src/Examples/Copies.antt =====
-- Copying a range of a file.
use so2_202003745_vd.Base.{[], none, some, true, false, pos, refl, arith}
use so2_202003745_vd.Rlimit.{rlim_infinity}
use so2_202003745_vd.Files.{Mode, File}
use so2_202003745_vd.Files.WriteLimits.{Target}
use so2_202003745_vd.Files.CopyChecks.{CopiedInode, End}
use so2_202003745_vd.Files.CopyRange.{CopyWorld, CopyHost, Offset, copy_file_range}
use so2_202003745_vd.Files.CopyRange.Bounded.{IsCopying, IsSized}
use so2_202003745_vd.Files.CopyRange.Advance.{Copies, copy_file_range-Copies}

abbrev every_mode : Mode
every_mode = record {
  fmode_read = true;
  fmode_write = true;
  fmode_lseek = true;
  fmode_pread = true;
  fmode_pwrite = true;
  fmode_can_read = true;
  fmode_can_write = true;
  fmode_stream = false;
  fmode_unsigned_offset = false;
  fmode_buf_wasync = false;
}

abbrev file : File
file = record {
  f_mode = every_mode;
  f_pos = pos 0;
  f_version = 0;
  o_largefile = true;
  o_append = false;
}

abbrev inode : CopiedInode
inode = record {
  i_ino = 5;
  i_sb = 1;
  is_dir = false;
  is_reg = true;
  is_immutable = false;
  is_swap = false;
  size = pos 100;
}

abbrev one_end : End
one_end = record { file = file; inode = inode; start = pos 0; copy_file_range = none }

abbrev target : Target
target = record {
  machine = record {
    rlim = λ signal r. record { rlim_cur = rlim_infinity; rlim_max = rlim_infinity };
    cpu_timers = [];
  };
  signal = 1;
  i_size = pos 100;
  s_maxbytes = pos 1000;
  is_swapfile = false;
}

-- Both descriptors are of one file; what is asked for is spliced.
abbrev host : CopyHost
host = record {
  in_file = 1;
  out_file = 1;
  permission = record {
    security_file_permission = λ d. pos 0;
    fsnotify_file_area_perm = λ d p n. pos 0;
  };
  target = target;
  call_copy = λ m p q len flags. pos len;
  remap_file_range = none;
  splice_direct = λ p q len. (pos len, p, q);
}

abbrev world : CopyWorld
world = record {
  f_pos = λ number. pos 90;
  notified = [];
  rchar = 0;
  wchar = 0;
  syscr = 0;
  syscw = 0;
  sigxfsz = 0;
  written_in = none;
  written_out = none;
}

abbrev at_20 : Offset
at_20 = record { value = some (pos 20); is_writable = true }

host-IsCopying : IsCopying host
host-IsCopying = record {
  call = λ m p q len flags. omega arith;
  remap = λ f has. ground arith;
  security = λ d. refl;
  fsnotify = λ d p n. refl;
  splice = λ p q len. omega arith;
}

sizes : IsSized host one_end one_end 100 1000
sizes = record {
  size_fits = omega arith;
  max_fits = omega arith;
  limit_fits = omega arith;
  size_is = refl;
  max_is = refl;
}

-- 50 bytes from the position, 90, of which there are 10, to 20
copy_file_range-Copies_example :
    Copies host none
      (some at_20)
      90
      20
      50
      100
      1000
      world
      (copy_file_range host (some one_end) none (some one_end) (some at_20) 50 0 world)
copy_file_range-Copies_example =
    copy_file_range-Copies host one_end one_end none (some at_20) 90 20 100 1000 50 world
      host-IsCopying sizes (omega arith) (omega arith) refl refl refl refl
