-- ===== src/Hostname/Readback.antt =====
-- The name that is read is the name that was set.
use so2_202003745_vd.Base.{
  ℕ, zero, suc, ◌+◌, ◌-◌, ◌≡◌, ◌≤◌, refl, ap, ◌∙◌, List, [], ◌∷◌, ◌++◌, length, take, some, true,
  false, pos, ok, ◌==◌, enter, arith,
}
use so2_202003745_vd.Hostname.{
  Uts, Host, sethostname, gethostname, strlen, at_most, fill, zeros, new_uts_len,
}

-- No byte is NUL.
abbrev pub IsText : List ℕ → Type 0
IsText [] = Unit {0}
IsText (c ∷ rest) = ((c == 0) ≡ false) × IsText rest

strlen-text : (l r : List ℕ) → IsText l → strlen (l ++ (0 ∷ r)) ≡ length l
unfolding strlen
strlen-text [] r t = refl
strlen-text (c ∷ l) r (some_byte, t) = rw (some_byte, strlen-text l r t) refl

at_most-suc : (i n : ℕ) → at_most (suc i) (suc n) ≡ suc (at_most i n)
at_most-suc i n = ground arith

at_most-zero : (i : ℕ) → at_most i 0 ≡ 0
at_most-zero i = ground arith

take-nil : (n : ℕ) → take {A = ℕ} n [] ≡ []
take-nil zero = refl
take-nil (suc n) = refl

-- What is copied from a field that holds a text.
take_text :
    (l r : List ℕ) (len : ℕ)
    → take (at_most (1 + length l) len) (l ++ (0 ∷ r)) ≡ take len (l ++ (0 ∷ []))
take_text [] r zero = refl
take_text [] r (suc n) = rw (at_most-suc 0 n, take-nil n) (ground arith)
take_text (c ∷ l) r zero = rw (at_most-zero (1 + suc (length l))) refl
take_text (c ∷ l) r (suc n) =
    let one_more : at_most (1 + suc (length l)) (suc n) ≡ suc (at_most (1 + length l) n) =
      ground arith in
    ap (λ k. take k (c ∷ (l ++ (0 ∷ r)))) one_more ∙ ap (λ t. c ∷ t) (take_text l r n)

fill_text : (l : List ℕ) → length l ≤ 64 → fill l ≡ l ++ (0 ∷ zeros (64 - length l))
fill_text l h =
    let more : new_uts_len + 1 - length l ≡ suc (64 - length l) = omega arith in
    ap (λ n. l ++ zeros n) more

nodename-sethostname :
    (h : Host) (name : List ℕ) (u : Uts)
    → h.copy_from_user (length name) ≡ some name
    → (enter (sethostname h (pos (length name))) u).0 ≡ pos 0
    → ((enter (sethostname h (pos (length name))) u).1.nodename ≡ fill name) × (length name ≤ 64)
unfolding sethostname
nodename-sethostname h name u read done = ground arith

gethostname_lem :
    (room : ℕ) (u : Uts)
    → (gethostname (pos room) true u).0
      ≡ ok (take (at_most (1 + strlen u.nodename) room) u.nodename)
unfolding gethostname
gethostname_lem room u = refl

gethostname_text :
    (room : ℕ) (name : List ℕ) (u : Uts)
    → IsText name
    → length name ≤ 64
    → u.nodename ≡ fill name
    → (gethostname (pos room) true u).0 ≡ ok (take room (name ++ (0 ∷ [])))
gethostname_text room name u text short set =
    let padding = zeros (64 - length name) in
    gethostname_lem room u
    ∙ rw (set, fill_text name short, strlen-text name padding text)
        (ap (λ t. ok t) (take_text name padding room))

-- After a `sethostname` that returned 0 with a name of no NUL bytes, a `gethostname` that can write
-- its answer gives that name with a NUL at its end, cut to the length that the caller has room for;
-- a caller whose room is the name's length or less gets no NUL.
pub gethostname-sethostname :
    (h : Host) (name : List ℕ) (room : ℕ) (u : Uts)
    → h.copy_from_user (length name) ≡ some name
    → IsText name
    → (enter (sethostname h (pos (length name))) u).0 ≡ pos 0
    → (gethostname (pos room) true (enter (sethostname h (pos (length name))) u).1).0
      ≡ ok (take room (name ++ (0 ∷ [])))
gethostname-sethostname h name room u read text done =
    let (set, short) = nodename-sethostname h name u read done in
    gethostname_text room name (enter (sethostname h (pos (length name))) u).1 text short set
