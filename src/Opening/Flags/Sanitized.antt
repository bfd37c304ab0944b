-- ===== src/Opening/Flags/Sanitized.antt =====
-- The older calls, which clear what they do not know.
use so2_202003745_vd.Base.{
  ℕ, Bool, true, false, ◌≡◌, ◌&&◌, ◌||◌, not, neg, Result, ok, err, arith, einval, refl,
}
use so2_202003745_vd.Opening.Flags.{
  OpenBits, build_open_how, build_open_flags, open_flags_invalid, how_flags, stripped, acc_mode_of,
}

open_flags_invalid_how :
    (flags : OpenBits) (mode : ℕ)
    → open_flags_invalid (stripped (how_flags flags)) (build_open_how flags mode) ≡ (
        not flags.o_path
        && ((flags.o_directory && flags.o_creat)
            || (flags.o_tmpfile_bit
                && (not flags.o_directory || not (acc_mode_of flags).may_write))))
unfolding open_flags_invalid build_open_how
open_flags_invalid_how flags mode = ground arith

how_of :
    (flags : OpenBits) (mode : ℕ)
    → ((build_open_how flags mode).flags ≡ how_flags flags)
      × ((build_open_how flags mode).resolve.resolve_cached ≡ false)
unfolding build_open_how
how_of flags mode = (refl, refl)

-- A directory that is also to be created, or a temporary file without O_DIRECTORY or without write
-- access.
abbrev pub is_conflict : OpenBits → Bool
is_conflict flags =
    not flags.o_path
    && ((flags.o_directory && flags.o_creat)
        || (flags.o_tmpfile_bit && (not flags.o_directory || not (acc_mode_of flags).may_write)))

abbrev pub is_ok : {A : Type 0} → Result A → Bool
is_ok (ok a) = true
is_ok (err e) = false

-- The flags and the mode of `open`, `openat` and `creat`, cleared by `build_open_how`, are refused
-- by `build_open_flags` only for a conflict among the flags, with -EINVAL, whatever unknown bits or
-- mode they have; without the conflict they are built.
pub build_open_flags-build_open_how :
    (flags : OpenBits) (mode : ℕ)
    → (is_conflict flags ≡ true → build_open_flags (build_open_how flags mode) ≡ err (neg einval))
      × (is_conflict flags ≡ false → is_ok (build_open_flags (build_open_how flags mode)) ≡ true)
unfolding build_open_flags
build_open_flags-build_open_how flags mode =
    let valid = open_flags_invalid_how flags mode in
    let same = how_of flags mode in ((λ h. ground arith), λ h. ground arith)
