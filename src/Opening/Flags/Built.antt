-- ===== src/Opening/Flags/Built.antt =====
-- What the flags that are built promise to the path walk.
use so2_202003745_vd.Base.{◌+◌, ◌<◌, true, false, ◌≡◌, ◌⊎◌, ◌&&◌, ◌||◌, not, ok, arith, ◌==◌}
use so2_202003745_vd.Opening.Flags.{
  OpenHow, OpenFlags, build_open_flags, open_flags_invalid, will_create, s_iallugo_size, s_ifreg,
  stripped,
}

build_open_flags_parts :
    (how : OpenHow) (op : OpenFlags)
    → build_open_flags how ≡ ok op
    → (open_flags_invalid (stripped how.flags) how ≡ false)
      × (op.open_flag.o_dsync ≡ (how.flags.o_sync_bit || how.flags.o_dsync))
      × (op.open_flag.others ≡ how.flags.others)
      × (op.acc_mode.may_write
          ≡ ((not how.flags.o_path && not (how.flags.accmode == 0)) || how.flags.o_trunc))
      × (op.acc_mode.may_read ≡ (not how.flags.o_path && not (how.flags.accmode == 1)))
      × (op.lookup_flags.lookup_follow
          ≡ not (how.flags.o_nofollow || (how.flags.o_creat && how.flags.o_excl)))
unfolding build_open_flags
build_open_flags_parts how op built =
    (ground arith, ground arith, ground arith, ground arith, ground arith, ground arith)

-- The flags that `build_open_flags` builds have no unknown bit; O_SYNC has O_DSYNC; O_PATH asks for no
-- access; O_TRUNC and O_TMPFILE ask for write access; an O_TMPFILE is a directory's;
-- nothing that is to be created is a directory; O_CREAT with O_EXCL follows no link at the end of the path;
-- and a lookup is not both beneath a directory and in a root.
pub build_open_flags_ok :
    (how : OpenHow) (op : OpenFlags)
    → build_open_flags how ≡ ok op
    → let f = op.open_flag in
      let acc = op.acc_mode in
      let lookup = op.lookup_flags in
      (f.others ≡ 0)
      × ((f.o_sync_bit ≡ false) ⊎ (f.o_dsync ≡ true))
      × ((f.o_path ≡ false)
          ⊎ ((acc.may_read ≡ false) × (acc.may_write ≡ false) × (acc.may_append ≡ false)))
      × ((f.o_trunc ≡ false) ⊎ (acc.may_write ≡ true))
      × ((f.o_tmpfile_bit ≡ false) ⊎ ((acc.may_write ≡ true) × (f.o_directory ≡ true)))
      × ((f.o_creat ≡ false) ⊎ (f.o_directory ≡ false))
      × ((f.o_creat ≡ false) ⊎ (f.o_excl ≡ false) ⊎ (lookup.lookup_follow ≡ false))
      × ((lookup.lookup_beneath ≡ false) ⊎ (lookup.lookup_in_root ≡ false))
unfolding build_open_flags open_flags_invalid
build_open_flags_ok how op built = (
  ground arith,
  ground arith,
  ground arith,
  ground arith,
  ground arith,
  ground arith,
  ground arith,
  ground arith,
)

-- The mode of a file to be created is that of a regular file with at most the permission bits asked for,
-- and it is 0 exactly where nothing is to be created.
pub build_open_flags_mode :
    (how : OpenHow) (op : OpenFlags)
    → build_open_flags how ≡ ok op
    → (will_create op.open_flag ≡ true
        → (op.create_mode ≡ how.mode + s_ifreg) × (how.mode < s_iallugo_size))
      × (will_create op.open_flag ≡ false → (op.create_mode ≡ 0) × (how.mode ≡ 0))
unfolding build_open_flags open_flags_invalid
build_open_flags_mode how op built = ((λ h. ground arith), λ h. ground arith)
