-- ===== src/Opening/Dentry.antt =====
-- What an open does to the file and to the inode behind it: `file_get_write_access`,
-- `do_dentry_open`, Kernel/fs/open.c.
pub mod Callbacks
pub mod Released
pub mod Usable
use so2_202003745_vd.Base.{
  ℕ, ◌+◌, ◌-◌, Bool, true, false, ◌&&◌, ◌||◌, not, Option, none, some, ℤ, pos, neg, is_zero,
  is_nonpos, if◌then◌else◌, enodev, einval,
}
use so2_202003745_vd.Files.{Mode}

-- The fields of a file that an open reads or writes: the bits of `f_mode` of Files, those that only an
-- open looks at, the bits of `f_flags`, and whether `f_inode` and the path are set.
pub record OpenFile : Type 0 where
  pub f_mode : Mode
  pub fmode_path : Bool
  pub fmode_opened : Bool
  pub fmode_writer : Bool
  pub fmode_atomic_pos : Bool
  pub fmode_can_odirect : Bool
  pub fmode_backing : Bool
  pub o_path : Bool
  pub o_direct : Bool
  pub o_largefile : Bool
  pub o_creat : Bool
  pub o_excl : Bool
  pub o_noctty : Bool
  pub o_trunc : Bool
  pub has_inode : Bool

-- What an open takes hold of: `i_readcount` and `i_writecount` of the inode, the write accesses of the
-- mount and of the mount behind a backing file, the path, the module behind `f_op`; and how often
-- the page cache was dropped and an open was told of.
pub record Held : Type 0 where
  pub readcount : ℕ
  pub writecount : ℕ
  pub mnt_writers : ℕ
  pub backing_writers : ℕ
  pub paths : ℕ
  pub fops : ℕ
  pub cache_drops : ℕ
  pub opens_told : ℕ

-- `open(inode, f)`: an error or 0, and the file then
abbrev pub Open : Type 0
Open = OpenFile → ℤ × OpenFile

-- The answers of the kernel: `get_write_access`, `mnt_get_write_access` on the mount and on that behind
-- a backing file; the kind of the inode; `f_op` and its methods; the hooks; the mapping; and
-- `put_file_access`, which is not in these files.
pub record DentryHost : Type 0 where
  pub get_write_access : ℤ
  pub mnt_get_write_access : ℤ
  pub backing_get_write_access : ℤ
  pub is_special : Bool
  pub is_reg : Bool
  pub is_dir : Bool
  pub has_fops : Bool
  pub security_file_open : ℤ
  pub break_lease : ℤ
  pub fop_open : Option Open
  pub has_read : Bool
  pub has_read_iter : Bool
  pub has_write : Bool
  pub has_write_iter : Bool
  pub has_llseek : Bool
  pub has_direct_io : Bool
  pub has_nr_thps : Bool
  pub put_file_access : OpenFile → Held → Held

-- The accesses are taken one by one and given back from where one fails.
unfoldable pub file_get_write_access : DentryHost → OpenFile → Held → ℤ × Held
file_get_write_access h f c =
    let inode_held : Held = record c { writecount = c.writecount + 1 } in
    let mnt_held : Held = record inode_held { mnt_writers = inode_held.mnt_writers + 1 } in
    let backing_held : Held = record mnt_held { backing_writers = mnt_held.backing_writers + 1 } in
    let mnt_put : Held = record mnt_held { mnt_writers = mnt_held.mnt_writers - 1 } in
    if not (is_zero h.get_write_access)
    then (h.get_write_access, c)
    else if not (is_zero h.mnt_get_write_access)
    then (h.mnt_get_write_access, record inode_held { writecount = inode_held.writecount - 1 })
    else if not f.fmode_backing
    then (pos 0, mnt_held)
    else if not (is_zero h.backing_get_write_access)
    then (h.backing_get_write_access, record mnt_put { writecount = mnt_put.writecount - 1 })
    else (pos 0, backing_held)

-- An answer: the error or 0, the file and what is held.
abbrev pub Opened : Type 0
Opened = ℤ × OpenFile × Held

-- `i_readcount_inc`, or the write access
unfoldable pub get_access : DentryHost → OpenFile → Held → Opened
get_access h f c =
    let (error, c') = file_get_write_access h f c in
    if f.f_mode.fmode_read && not f.f_mode.fmode_write
    then (pos 0, f, record c { readcount = c.readcount + 1 })
    else if f.f_mode.fmode_write && not h.is_special
    then if is_zero error then (pos 0, record f { fmode_writer = true }, c') else (error, f, c')
    else (pos 0, f, c)

-- `cleanup_file`
unfoldable pub cleanup_file : ℤ → OpenFile → Held → Opened
cleanup_file error f c = (error, record f { has_inode = false }, record c { paths = c.paths - 1 })

-- `cleanup_all`; an error that is positive becomes -EINVAL
unfoldable pub cleanup_all : DentryHost → ℤ → OpenFile → Held → Opened
unfolding cleanup_file
cleanup_all h error f c =
    let put : Held = record c { fops = if h.has_fops then c.fops - 1 else c.fops } in
    cleanup_file (if is_nonpos error then error else neg einval) f (h.put_file_access f put)

-- The tests between the access and `open`: an error or 0.
unfoldable pub open_refusal : DentryHost → ℤ
open_refusal h =
    if not h.has_fops
    then neg enodev
    else if not (is_zero h.security_file_open)
    then h.security_file_open
    else h.break_lease

abbrev pub no_modes : Mode
no_modes = record {
  fmode_read = false;
  fmode_write = false;
  fmode_lseek = false;
  fmode_pread = false;
  fmode_pwrite = false;
  fmode_can_read = false;
  fmode_can_write = false;
  fmode_stream = false;
  fmode_unsigned_offset = false;
  fmode_buf_wasync = false;
}

-- `f->f_mode = FMODE_PATH | FMODE_OPENED`
unfoldable pub path_file : OpenFile → OpenFile
path_file f = record f {
  f_mode = no_modes;
  fmode_path = true;
  fmode_opened = true;
  fmode_writer = false;
  fmode_atomic_pos = false;
  fmode_can_odirect = false;
  fmode_backing = false;
}

-- `f->f_mode |= FMODE_LSEEK | FMODE_PREAD | FMODE_PWRITE`
abbrev pub seekable : Mode → Mode
seekable m = record m { fmode_lseek = true; fmode_pread = true; fmode_pwrite = true }

abbrev pub can_modes : DentryHost → Mode → Mode
can_modes h m = record m {
  fmode_can_read = m.fmode_can_read || m.fmode_read && (h.has_read || h.has_read_iter);
  fmode_can_write = m.fmode_can_write || m.fmode_write && (h.has_write || h.has_write_iter);
  fmode_lseek = m.fmode_lseek && h.has_llseek;
}

-- The modes and the flags after a successful `open`.
unfoldable pub opened_file : DentryHost → OpenFile → OpenFile
opened_file h f = record f {
  f_mode = can_modes h f.f_mode;
  fmode_opened = true;
  fmode_can_odirect = f.fmode_can_odirect || h.has_direct_io;
  o_creat = false;
  o_excl = false;
  o_noctty = false;
  o_trunc = false;
}

-- The end of the call, where the file is open.
unfoldable pub finish_opened : DentryHost → OpenFile → Held → Opened
finish_opened h f c =
    let dropped : Held = record c {
      cache_drops =
          if f.f_mode.fmode_write && h.has_nr_thps then c.cache_drops + 1 else c.cache_drops;
    } in
    if f.o_direct && not f.fmode_can_odirect
    then (neg einval, f, c)
    else (pos 0, f, record dropped { opens_told = dropped.opens_told + 1 })

-- `if (!open) open = f->f_op->open; if (open) error = open(inode, f);`
unfoldable pub call_open : DentryHost → Option Open → OpenFile → ℤ × OpenFile
call_open h (some callback) f = callback f
call_open h none f = elim h.fop_open [ some callback ↦ callback f | none ↦ (pos 0, f) ]

-- With the access taken.
unfoldable pub open_accessed : DentryHost → Option Open → OpenFile → Held → Opened
open_accessed h callback f c =
    let placed : OpenFile = record f {
      fmode_atomic_pos = f.fmode_atomic_pos || h.is_reg || h.is_dir;
    } in
    let got : Held = record c { fops = if h.has_fops then c.fops + 1 else c.fops } in
    let (error, f') = call_open h callback (record placed { f_mode = seekable placed.f_mode }) in
    if not (is_zero (open_refusal h))
    then cleanup_all h (open_refusal h) placed got
    else if not (is_zero error)
    then cleanup_all h error f' got
    else finish_opened h (opened_file h f') got

unfoldable pub do_dentry_open : DentryHost → Option Open → OpenFile → Held → Opened
do_dentry_open h callback f c =
    let there : OpenFile = record f { has_inode = true } in
    let pathed : Held = record c { paths = c.paths + 1 } in
    let (error, f', c') = get_access h there pathed in
    if f.o_path
    then (pos 0, path_file there, pathed)
    else if not (is_zero error)
    then cleanup_file error f' c'
    else open_accessed h callback f' c'

-- `vfs_open`: the file has its path, and the file system's own `open` is called
unfoldable pub vfs_open : DentryHost → OpenFile → Held → Opened
vfs_open h f c = do_dentry_open h none f c
