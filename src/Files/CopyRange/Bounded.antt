-- ===== src/Files/CopyRange/Bounded.antt =====
-- How much a copy moves, and the checks before it.
use so2_202003745_vd.Base.{
  ℕ, ◌+◌, ◌^◌, ◌≤◌, ◌<◌, ◌≡◌, ◌⊎◌, true, false, Option, some, ℤ, pos, is_nonpos, minz, signed64,
  arith, inl, inr, refl, Option-cases,
}
use so2_202003745_vd.Files.{File}
use so2_202003745_vd.Files.Area.{Direction, reading, writing, rw_verify_area}
use so2_202003745_vd.Files.Transfer.{bytes, max_rw_count}
use so2_202003745_vd.Files.WriteLimits.{
  Target, Request, fsize_limit, max_size, generic_write_check_limits, check_fsize,
}
use so2_202003745_vd.Files.CopyChecks.{
  End, smaller, generic_copy_file_checks, copy_refusal, generic_file_rw_checks, limits_request,
  shorten_to_eof,
}
use so2_202003745_vd.Files.CopyChecks.Copied.{generic_copy_file_checks_range}
use so2_202003745_vd.Files.CopyRange.{
  CopyWorld, CopyHost, splice_copy, remap_or_splice, copy_without_method, copy_data, account_copy,
  copy_areas, vfs_copy_file_range,
}

-- The methods copy at most what they are asked for, and the hooks answer 0 or an error.
pub record IsCopying (h : CopyHost) : Type 0 where
  pub call : (m : ℕ) (p q : ℤ) (len flags : ℕ) → bytes (h.call_copy m p q len flags) ≤ len
  pub remap :
      (f : ℤ → ℤ → ℤ → ℤ)
      → h.remap_file_range ≡ some f
      → (p q : ℤ) (len : ℤ) → bytes (f p q len) ≤ bytes len
  pub security : (d : Direction) → is_nonpos (h.permission.security_file_permission d) ≡ true
  pub fsnotify :
      (d : Direction) (ppos : Option ℤ) (count : ℕ)
      → is_nonpos (h.permission.fsnotify_file_area_perm d ppos count) ≡ true
  pub splice : (p q : ℤ) (len : ℕ) → bytes (h.splice_direct p q len).0 ≤ len

splice_copy-len :
    (h : CopyHost) (source dest : End) (len : ℕ)
    → IsCopying h
    → bytes (splice_copy h source dest len) ≤ len
unfolding splice_copy
splice_copy-len h source dest len r =
    ground (arith, r.splice source.start dest.start (smaller len max_rw_count))

remap_or_splice-len :
    (h : CopyHost) (f : ℤ → ℤ → ℤ → ℤ) (source dest : End) (len : ℕ)
    → IsCopying h
    → len < 2 ^ 63
    → h.remap_file_range ≡ some f
    → bytes (remap_or_splice h f source dest len) ≤ len
unfolding remap_or_splice
remap_or_splice-len h f source dest len r small has = ground (
  arith,
  r.remap f has source.start dest.start (minz (pos max_rw_count) (signed64 len)),
  splice_copy-len h source dest len r,
)

copy_data-len :
    (h : CopyHost) (source dest : End) (len flags : ℕ)
    → IsCopying h
    → len < 2 ^ 63
    → bytes (copy_data h source dest len flags) ≤ len
unfolding copy_data copy_without_method
copy_data-len h source dest len flags r small = elim (Option-cases dest.copy_file_range) [
  | inr (m, has) ↦
      ground
        (arith, r.call m source.start dest.start len flags, splice_copy-len h source dest len r)
  | inl none_there ↦ elim (Option-cases h.remap_file_range) [
    | inr (f, has) ↦ ground (
      arith,
      remap_or_splice-len h f source dest len r small has,
      splice_copy-len h source dest len r,
    )
    | inl absent ↦ ground (arith, splice_copy-len h source dest len r)
  ]
]

copy_areas_nonpos :
    (h : CopyHost) (source dest : End) (len : ℕ)
    → IsCopying h
    → is_nonpos (copy_areas h source dest len) ≡ true
unfolding copy_areas rw_verify_area
copy_areas_nonpos h source dest len r = ground (
  arith,
  r.security reading,
  r.security writing,
  r.fsnotify reading (some source.start) len,
  r.fsnotify writing (some dest.start) len,
)

generic_write_check_limits_nonpos :
    (t : Target) (file : File) (p : ℤ) (r : Request)
    → is_nonpos (generic_write_check_limits t file p r).0 ≡ true
unfolding generic_write_check_limits check_fsize
generic_write_check_limits_nonpos t file p r = ground arith

copy_refusal_nonpos :
    (source dest : End) (len flags : ℕ) → is_nonpos (copy_refusal source dest len flags) ≡ true
unfolding copy_refusal generic_file_rw_checks
copy_refusal_nonpos source dest len flags = ground arith

copy_checks_nonpos :
    (t : Target) (source dest : End) (len flags sent : ℕ)
    → is_nonpos (generic_copy_file_checks t source dest len flags sent).0 ≡ true
unfolding generic_copy_file_checks
copy_checks_nonpos t source dest len flags sent = ground (
  arith,
  copy_refusal_nonpos source dest len flags,
  generic_write_check_limits_nonpos t dest.file dest.start
      (limits_request (shorten_to_eof source len) sent),
)

-- A copy from `a` to `b` that fails or copies nothing; or one of at most `len` bytes within the source
-- and within the largest size of the destination, which the task is charged with.
abbrev pub IsBounded : ℕ → ℕ → ℕ → ℕ → ℕ → CopyWorld → ℤ × CopyWorld → Type 0
IsBounded a b len size max w (ret, w') =
    (w'.f_pos ≡ w.f_pos)
    × (((is_nonpos ret ≡ true) × (w'.rchar ≡ w.rchar) × (w'.wchar ≡ w.wchar))
        ⊎ ((is_nonpos ret ≡ false)
            × (bytes ret ≤ len)
            × (a + bytes ret ≤ size)
            × (b + bytes ret ≤ max)
            × (w'.rchar ≡ w.rchar + bytes ret)
            × (w'.wchar ≡ w.wchar + bytes ret)))

-- The sizes that bound a copy are those of `loff_t` values.
pub record IsSized (h : CopyHost) (source dest : End) (size max : ℕ) : Type 0 where
  pub size_fits : size < 2 ^ 63
  pub max_fits : max < 2 ^ 63
  pub limit_fits : fsize_limit h.target < 2 ^ 64
  pub size_is : source.inode.size ≡ pos size
  pub max_is : max_size h.target dest.file ≡ pos max

pub vfs_copy_file_range-IsBounded :
    (h : CopyHost) (source dest : End) (a b size max len flags : ℕ) (w : CopyWorld)
    → IsCopying h
    → IsSized h source dest size max
    → a < 2 ^ 63
    → b < 2 ^ 63
    → source.start ≡ pos a
    → dest.start ≡ pos b
    → IsBounded a b len size max w (vfs_copy_file_range h source dest len flags w)
unfolding vfs_copy_file_range account_copy
vfs_copy_file_range-IsBounded h source dest a b size max len flags w r z ha hb from to =
    let (ret, (n, signals)) = generic_copy_file_checks h.target source dest len flags w.sigxfsz in
    let range =
      generic_copy_file_checks_range h.target source dest a b size max len flags w.sigxfsz n signals
        ret ha hb z.size_fits z.max_fits z.limit_fits from to z.size_is z.max_is refl in
    ground (
      arith,
      copy_data-len h source dest n flags r,
      copy_areas_nonpos h source dest n r,
      copy_checks_nonpos h.target source dest len flags w.sigxfsz,
    )
