-- ===== src/Files/WriteLimits/Bounds.antt =====
-- A write that passes ends within every limit.
use so2_202003745_vd.Base.{ℕ, ◌+◌, ◌^◌, ◌≤◌, ◌<◌, ◌≡◌, ◌≢◌, false, ℤ, pos, is_neg, to_word, arith}
use so2_202003745_vd.Rlimit.{rlim_infinity}
use so2_202003745_vd.Files.{File}
use so2_202003745_vd.Files.WriteLimits.{
  Target, Request, fsize_limit, max_size, check_fsize, generic_write_check_limits,
}

-- A count `c` from `p` is not negative, is at most `count`, is no less than 1 if `count` is not, and
-- ends within the limit on file sizes, if there is one, and within `m`.
abbrev pub Fits : Target → ℕ → ℕ → ℕ → ℤ → Type 0
Fits t m p count c =
    (is_neg c ≡ false)
    × (to_word c ≤ count)
    × (0 < count → 0 < to_word c)
    × ((fsize_limit t ≢ rlim_infinity) → p + to_word c ≤ fsize_limit t)
    × (p + to_word c ≤ m)

-- The request for `count` bytes, before the checks.
abbrev pub request : ℕ → ℕ → Request
request count sent = record { count = pos count; sigxfsz = sent }

pub generic_write_check_limits-Fits :
    (t : Target) (file : File) (p count m sent : ℕ)
    → p < 2 ^ 63
    → count < 2 ^ 63
    → m < 2 ^ 63
    → fsize_limit t < 2 ^ 64
    → max_size t file ≡ pos m
    → (ret : ℤ) (r : Request)
    → generic_write_check_limits t file (pos p) (request count sent) ≡ (ret, r)
    → ret ≡ pos 0
    → Fits t m p count r.count
unfolding generic_write_check_limits check_fsize
generic_write_check_limits-Fits t file p count m sent hp hc hm hl max ret r run passed =
    (ground arith, ground arith, ground arith, ground arith, ground arith)
