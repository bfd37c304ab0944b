-- ===== src/Files/CopyRange/Advance.antt =====
-- How far `copy_file_range` moves both positions.
use so2_202003745_vd.Base.{
  ℕ, ◌+◌, ◌^◌, ◌≤◌, ◌<◌, ◌≡◌, ◌⊎◌, true, false, Bool, Option, none, some, ℤ, pos, is_nonpos, arith,
  refl,
}
use so2_202003745_vd.Files.Transfer.{bytes}
use so2_202003745_vd.Files.CopyChecks.{End}
use so2_202003745_vd.Files.CopyRange.{
  CopyWorld, CopyHost, Offset, start_of, finish_in, finish_out, copy_from, copy_file_range,
}
use so2_202003745_vd.Files.CopyRange.Bounded.{IsCopying, IsSized, vfs_copy_file_range-IsBounded}

-- Whether the offset of a caller, if there is one, can be written.
abbrev pub can_write : Option Offset → Bool
can_write none = true
can_write (some off) = off.is_writable

-- Where the offset of a caller is after the call: in user space, or in the file.
abbrev pub end_of : Option Offset → ℤ → Option ℤ → Option ℤ
end_of none p written = some p
end_of (some off) p written = written

-- The call returned an error or 0, and moved and charged nothing; or it returned a number of bytes, at
-- most `len`, within the source and within the largest size of the destination, both offsets
-- are moved by exactly it, and the task is charged with it, as read and as written.
abbrev pub Copies :
    CopyHost
    → Option Offset
    → Option Offset
    → ℕ
    → ℕ
    → ℕ
    → ℕ
    → ℕ
    → CopyWorld
    → ℤ × CopyWorld
    → Type 0
Copies h off_in off_out a b len size max w (ret, w') =
    ((is_nonpos ret ≡ true) × (w'.f_pos ≡ w.f_pos) × (w'.rchar ≡ w.rchar) × (w'.wchar ≡ w.wchar))
    ⊎ ((is_nonpos ret ≡ false)
        × (bytes ret ≤ len)
        × (a + bytes ret ≤ size)
        × (b + bytes ret ≤ max)
        × (end_of off_in (w'.f_pos h.in_file) w'.written_in ≡ some (pos (a + bytes ret)))
        × (end_of off_out (w'.f_pos h.out_file) w'.written_out ≡ some (pos (b + bytes ret)))
        × (w'.rchar ≡ w.rchar + bytes ret)
        × (w'.wchar ≡ w.wchar + bytes ret))

copy_from-Copies :
    (h : CopyHost) (source dest : End) (off_in off_out : Option Offset) (a b size max len flags : ℕ)
    (w : CopyWorld)
    → IsCopying h
    → IsSized h source dest size max
    → a < 2 ^ 63
    → b < 2 ^ 63
    → source.start ≡ pos a
    → dest.start ≡ pos b
    → can_write off_in ≡ true
    → can_write off_out ≡ true
    → start_of off_in (w.f_pos h.in_file) ≡ some (pos a)
    → start_of off_out (w.f_pos h.out_file) ≡ some (pos b)
    → Copies h off_in off_out a b len size max w
        (copy_from h source dest off_in off_out len flags w)
unfolding copy_from finish_in finish_out
copy_from-Copies h source dest off_in off_out a b size max len flags w r z ha hb from to can_in
      can_out start_in start_out =
    ground (
      arith,
      vfs_copy_file_range-IsBounded h source dest a b size max len flags w r z ha hb from to,
      z.size_fits,
      z.max_fits,
    )

started :
    (h : CopyHost) (source dest : End) (off_in off_out : Option Offset) (p q : ℤ) (len : ℕ)
    (w : CopyWorld)
    → start_of off_in (w.f_pos h.in_file) ≡ some p
    → start_of off_out (w.f_pos h.out_file) ≡ some q
    → copy_file_range h (some source) off_in (some dest) off_out len 0 w
      ≡ copy_from h (record source { start = p }) (record dest { start = q }) off_in off_out len 0 w
unfolding copy_file_range
started h source dest off_in off_out p q len w start_in start_out = ground arith

-- `copy_file_range` without flags between two open files, from offsets `a` and `b` below 2^63 that are
-- the files' own or the caller's: either it returns an error or 0, and has moved no position and
-- charged nothing, or it returns a number of bytes, at most `len`, that lie within the source and
-- within the largest size of the destination, and has moved both offsets by exactly it and
-- charged it as read and as written; also where both files are the same. The caller's
-- offsets can be written, the methods copy at most what they are asked for, and the hooks answer
-- 0 or an error.
pub copy_file_range-Copies :
    (h : CopyHost) (source dest : End) (off_in off_out : Option Offset) (a b size max len : ℕ)
    (w : CopyWorld)
    → IsCopying h
    → IsSized h source dest size max
    → a < 2 ^ 63
    → b < 2 ^ 63
    → can_write off_in ≡ true
    → can_write off_out ≡ true
    → start_of off_in (w.f_pos h.in_file) ≡ some (pos a)
    → start_of off_out (w.f_pos h.out_file) ≡ some (pos b)
    → Copies h off_in off_out a b len size max w
        (copy_file_range h (some source) off_in (some dest) off_out len 0 w)
copy_file_range-Copies h source dest off_in off_out a b size max len w r z ha hb can_in can_out
      start_in start_out =
    let placed_in : End = record source { start = pos a } in
    let placed_out : End = record dest { start = pos b } in
    let sized : IsSized h placed_in placed_out size max = record {
      size_fits = z.size_fits;
      max_fits = z.max_fits;
      limit_fits = z.limit_fits;
      size_is = z.size_is;
      max_is = z.max_is;
    } in
    rw (started h source dest off_in off_out (pos a) (pos b) len w start_in start_out) (
      copy_from-Copies h placed_in placed_out off_in off_out a b size max len 0 w r sized ha hb refl
        refl can_in can_out start_in start_out)
