-- ===== src/Files/Transfer/Vector.antt =====
-- Transfers to several buffers by hand, `do_loop_readv_writev`.
use so2_202003745_vd.Base.{
  ℕ, ◌+◌, ◌-◌, ◌^◌, ◌≤◌, ◌≡◌, refl, ap, sym, ◌⊎◌, true, false, not, List, [], ◌∷◌, Option, some, ℤ,
  pos, neg, is_neg, inl, inr, arith, has, ◌==◌, if◌then◌else◌, eopnotsupp, Bool-cases,
}
use so2_202003745_vd.Files.Area.{Direction}
use so2_202003745_vd.Files.Transfer.{
  World, Access, Method, Outcome, bytes, call_method, record_access,
}
use so2_202003745_vd.Files.Transfer.Advance.{KeepsCount}

-- `iov_iter_count`, from the lengths of the buffers that are left
abbrev pub iov_iter_count : List ℕ → ℕ
iov_iter_count [] = 0
iov_iter_count (len ∷ rest) = len + iov_iter_count rest

-- Without the empty buffers.
abbrev pub nonempty : List ℕ → List ℕ
nonempty [] = []
nonempty (len ∷ rest) = if len == 0 then nonempty rest else len ∷ nonempty rest

-- The buffers that the loop comes to: an empty one at the start is met, and `iov_iter_advance` passes
-- over those that follow a buffer.
abbrev pub met_buffers : List ℕ → List ℕ
met_buffers [] = []
met_buffers (len ∷ rest) = len ∷ nonempty rest

-- The loop over these buffers, with `ret` bytes moved so far.
unfoldable pub loop : Direction → Method → List ℕ → ℕ → Option ℤ → World → Outcome
unfolding call_method
loop d f [] ret ppos w = (pos ret, ppos, w)
loop d f (len ∷ rest) ret ppos w =
    let (nr, ppos', w') = call_method d f len ppos w in
    let more = loop d f rest (ret + bytes nr) ppos' w' in
    if iov_iter_count (len ∷ rest) == 0
    then (pos ret, ppos, w)
    else if is_neg nr
    then ((if ret == 0 then nr else pos ret), ppos', w')
    else if not (bytes nr == len)
    then (pos (ret + bytes nr), ppos', w')
    else more

-- `~RWF_HIPRI` in the 32 bits of the flags
abbrev pub not_hipri : ℕ
not_hipri = 2 ^ 32 - 2

unfoldable pub do_loop_readv_writev : Direction → Method → List ℕ → ℕ → Option ℤ → World → Outcome
do_loop_readv_writev d f lens flags ppos w =
    if has flags not_hipri then (neg eopnotsupp, ppos, w) else loop d f (met_buffers lens) 0 ppos w

-- A method that fails leaves the position.
abbrev pub FailsInPlace : Method → Type 0
FailsInPlace f =
    (l : List Access) (p count : ℕ)
    → let (ret, p') = f l (some (pos p)) count in is_neg ret ≡ true → p' ≡ pos p

-- What a transfer of buffers from position `p` ends in, after `ret` bytes: the first error, with
-- nothing moved, or the bytes moved, with the position moved by those of this transfer.
abbrev pub Moved : ℕ → ℕ → ℕ → Outcome → Type 0
Moved total ret p (value, ppos, w) =
    ((is_neg value ≡ true) × (ret ≡ 0) × (ppos ≡ some (pos p)))
    ⊎ ((is_neg value ≡ false)
        × (ret ≤ bytes value)
        × (bytes value ≤ ret + total)
        × (ppos ≡ some (pos (p + (bytes value - ret)))))

pub loop-Moved :
    (d : Direction) (f : Method) (lens : List ℕ) (ret p : ℕ) (w : World)
    → KeepsCount f
    → FailsInPlace f
    → Moved (iov_iter_count lens) ret p (loop d f lens ret (some (pos p)) w)
unfolding loop
loop-Moved d f [] ret p w keeps fails = ground arith
loop-Moved d f (len ∷ rest) ret p w keeps fails =
    let b = bytes (f w.accesses (some (pos p)) len).0 in
    ground (
      arith,
      keeps w.accesses p len,
      fails w.accesses p len,
      loop-Moved d f rest (ret + b) (p + b) (record_access d (some (pos p)) len w) keeps fails,
    )

nonempty_count : (lens : List ℕ) → iov_iter_count (nonempty lens) ≡ iov_iter_count lens
nonempty_count [] = refl
nonempty_count (len ∷ rest) = ground (arith, nonempty_count rest)

pub met_buffers_count : (lens : List ℕ) → iov_iter_count (met_buffers lens) ≡ iov_iter_count lens
met_buffers_count [] = refl
met_buffers_count (len ∷ rest) = ap (λ n. len + n) (nonempty_count rest)

-- `do_loop_readv_writev` from an offset `p` either refuses its flags, or it returns the method's first
-- error, with nothing moved, or the number of bytes moved, at most what the buffers hold; the
-- position has moved by exactly as many bytes as it returns. The method is to keep count, and to
-- leave the position when it fails.
pub do_loop_readv_writev-Moved :
    (d : Direction) (f : Method) (lens : List ℕ) (flags p : ℕ) (w : World)
    → KeepsCount f
    → FailsInPlace f
    → (do_loop_readv_writev d f lens flags (some (pos p)) w ≡ (neg eopnotsupp, some (pos p), w))
      ⊎ Moved (iov_iter_count lens) 0 p (do_loop_readv_writev d f lens flags (some (pos p)) w)
unfolding do_loop_readv_writev
do_loop_readv_writev-Moved d f lens flags p w keeps fails =
    elim (Bool-cases (has flags not_hipri)) [
      | inl refused ↦ inl (rw refused)
      | inr fine ↦ inr (
          rw (fine, sym (met_buffers_count lens))
            (loop-Moved d f (met_buffers lens) 0 p w keeps fails))
    ]
