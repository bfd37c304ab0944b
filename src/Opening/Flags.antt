-- ===== src/Opening/Flags.antt =====
-- `build_open_how` and `build_open_flags`: from the arguments of an open to `struct open_flags`.
pub mod Sanitized
pub mod Built
use so2_202003745_vd.Base.{
  ℕ, ◌+◌, ◌^◌, ◌/◌, ◌%◌, Bool, true, false, ◌&&◌, ◌||◌, not, neg, ◌==◌, if◌then◌else◌, Result, ok,
  err, einval, eagain,
}

-- A word of flags by its bits: `accmode` is the two bits of O_ACCMODE, `others` the bits that are
-- neither in VALID_OPEN_FLAGS nor __FMODE_NONOTIFY, as a number.
pub record OpenBits : Type 0 where
  pub accmode : ℕ
  pub o_creat : Bool
  pub o_excl : Bool
  pub o_noctty : Bool
  pub o_trunc : Bool
  pub o_append : Bool
  pub o_nonblock : Bool
  pub o_sync_bit : Bool
  pub o_dsync : Bool
  pub fasync : Bool
  pub o_direct : Bool
  pub o_largefile : Bool
  pub o_directory : Bool
  pub o_nofollow : Bool
  pub o_noatime : Bool
  pub o_cloexec : Bool
  pub o_path : Bool
  pub o_tmpfile_bit : Bool
  pub fmode_nonotify : Bool
  pub others : ℕ

pub record ResolveBits : Type 0 where
  pub resolve_no_xdev : Bool
  pub resolve_no_magiclinks : Bool
  pub resolve_no_symlinks : Bool
  pub resolve_beneath : Bool
  pub resolve_in_root : Bool
  pub resolve_cached : Bool
  -- the bits outside VALID_RESOLVE_FLAGS
  pub resolve_others : ℕ

-- `struct open_how`
pub record OpenHow : Type 0 where
  pub flags : OpenBits
  pub mode : ℕ
  pub resolve : ResolveBits

pub record AccMode : Type 0 where
  pub may_read : Bool
  pub may_write : Bool
  pub may_append : Bool

pub record Intent : Type 0 where
  pub lookup_open : Bool
  pub lookup_create : Bool
  pub lookup_excl : Bool

pub record Lookup : Type 0 where
  pub lookup_directory : Bool
  pub lookup_follow : Bool
  pub lookup_no_xdev : Bool
  pub lookup_no_magiclinks : Bool
  pub lookup_no_symlinks : Bool
  pub lookup_beneath : Bool
  pub lookup_in_root : Bool
  pub lookup_cached : Bool

-- `struct open_flags`
pub record OpenFlags : Type 0 where
  pub open_flag : OpenBits
  pub create_mode : ℕ
  pub acc_mode : AccMode
  pub intent : Intent
  pub lookup_flags : Lookup

-- S_IALLUGO + 1 and S_IFREG
abbrev pub s_iallugo_size : ℕ
s_iallugo_size = 4096

abbrev pub s_ifreg : ℕ
s_ifreg = 2 ^ 15

-- `WILL_CREATE(flags)`
abbrev pub will_create : OpenBits → Bool
will_create f = f.o_creat || f.o_tmpfile_bit

-- `flags & VALID_OPEN_FLAGS`
abbrev pub valid_open_flags : OpenBits → OpenBits
valid_open_flags f = record f { fmode_nonotify = false; others = 0 }

-- no flag
abbrev pub no_bits : OpenBits
no_bits = record {
  accmode = 0;
  o_creat = false;
  o_excl = false;
  o_noctty = false;
  o_trunc = false;
  o_append = false;
  o_nonblock = false;
  o_sync_bit = false;
  o_dsync = false;
  fasync = false;
  o_direct = false;
  o_largefile = false;
  o_directory = false;
  o_nofollow = false;
  o_noatime = false;
  o_cloexec = false;
  o_path = false;
  o_tmpfile_bit = false;
  fmode_nonotify = false;
  others = 0;
}

-- `flags & O_PATH_FLAGS`
abbrev pub o_path_flags : OpenBits → OpenBits
o_path_flags f = record no_bits {
  o_directory = f.o_directory;
  o_nofollow = f.o_nofollow;
  o_cloexec = f.o_cloexec;
  o_path = f.o_path;
}

abbrev pub no_resolve : ResolveBits
no_resolve = record {
  resolve_no_xdev = false;
  resolve_no_magiclinks = false;
  resolve_no_symlinks = false;
  resolve_beneath = false;
  resolve_in_root = false;
  resolve_cached = false;
  resolve_others = 0;
}

-- The flags of `build_open_how`.
abbrev pub how_flags : OpenBits → OpenBits
how_flags flags =
    if flags.o_path then o_path_flags (valid_open_flags flags) else valid_open_flags flags

unfoldable pub build_open_how : OpenBits → ℕ → OpenHow
build_open_how flags mode = record {
  flags = how_flags flags;
  mode = if will_create (how_flags flags) then mode % s_iallugo_size else 0;
  resolve = no_resolve;
}

-- `flags & ~strip`
abbrev pub stripped : OpenBits → OpenBits
stripped f = record f { fmode_nonotify = false; o_cloexec = false }

-- `ACC_MODE(flags)`
abbrev pub acc_mode_of : OpenBits → AccMode
acc_mode_of f = record {
  may_read = not (f.accmode == 1);
  may_write = not (f.accmode == 0);
  may_append = false;
}

-- `flags & ~O_PATH_FLAGS`, of flags without the stripped bits
abbrev pub beyond_path : OpenBits → Bool
beyond_path f =
    not (f.accmode == 0)
    || (f.o_creat || f.o_excl || f.o_noctty || f.o_trunc || f.o_append || f.o_nonblock)
    || (f.o_sync_bit || f.o_dsync || f.fasync || f.o_direct || f.o_largefile || f.o_noatime)
    || (f.o_tmpfile_bit || not (f.others == 0))

-- The test of the mode.
abbrev pub bad_mode : OpenBits → ℕ → Bool
bad_mode f mode = if will_create f then not (mode / s_iallugo_size == 0) else not (mode == 0)

-- Every `return -EINVAL`, in the order of the code; `f` is `flags` once they are stripped.
unfoldable pub open_flags_invalid : OpenBits → OpenHow → Bool
open_flags_invalid f how =
    not (f.others == 0)
    || not (how.resolve.resolve_others == 0)
    || (how.resolve.resolve_beneath && how.resolve.resolve_in_root)
    || bad_mode f how.mode
    || (f.o_directory && f.o_creat)
    || (f.o_tmpfile_bit && (not f.o_directory || not (acc_mode_of how.flags).may_write))
    || (f.o_path && beyond_path f)

-- `__O_SYNC` sets O_DSYNC.
abbrev pub with_dsync : OpenBits → OpenBits
with_dsync f = record f { o_dsync = f.o_sync_bit || f.o_dsync }

abbrev pub built_acc_mode : OpenBits → AccMode
built_acc_mode f = record {
  may_read = not f.o_path && (acc_mode_of f).may_read;
  may_write = (not f.o_path && (acc_mode_of f).may_write) || f.o_trunc;
  may_append = f.o_append;
}

abbrev pub built_intent : OpenBits → Intent
built_intent f = record {
  lookup_open = not f.o_path;
  lookup_create = f.o_creat;
  lookup_excl = f.o_creat && f.o_excl;
}

-- O_CREAT with O_EXCL sets O_NOFOLLOW.
abbrev pub built_lookup : OpenBits → ResolveBits → Lookup
built_lookup f resolve = record {
  lookup_directory = f.o_directory;
  lookup_follow = not (f.o_nofollow || (f.o_creat && f.o_excl));
  lookup_no_xdev = resolve.resolve_no_xdev;
  lookup_no_magiclinks = resolve.resolve_no_magiclinks;
  lookup_no_symlinks = resolve.resolve_no_symlinks;
  lookup_beneath = resolve.resolve_beneath;
  lookup_in_root = resolve.resolve_in_root;
  lookup_cached = resolve.resolve_cached;
}

unfoldable pub build_open_flags : OpenHow → Result OpenFlags
build_open_flags how =
    let f = stripped how.flags in
    if open_flags_invalid f how
    then err (neg einval)
    else if how.resolve.resolve_cached && (f.o_trunc || f.o_creat || f.o_tmpfile_bit)
    then err (neg eagain)
    else ok (record {
      open_flag = with_dsync f;
      create_mode = if will_create f then how.mode + s_ifreg else 0;
      acc_mode = built_acc_mode f;
      intent = built_intent f;
      lookup_flags = built_lookup f how.resolve;
    })
