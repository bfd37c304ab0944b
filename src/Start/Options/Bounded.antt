-- ===== src/Start/Options/Bounded.antt =====
-- The arrays are never overrun.
use so2_202003745_vd.Base.{
  ℕ, suc, ◌+◌, ◌≤◌, ◌≡◌, ◌⊎◌, Bool, true, false, List, [], ◌∷◌, Option, none, some, length, arith,
  inl, inr,
}
use so2_202003745_vd.Start.Options.{
  Entry, BootOption, Boot, place_arg, place_env, set_init_arg, hand_to_init, unknown_bootoption,
  clear_args, init_setup, rdinit_setup,
}

-- Whether the last entry of an array is NULL.
abbrev pub ends_null : List (Option Entry) → Bool
ends_null [] = false
ends_null (x ∷ []) = elim x [ none ↦ true | some e ↦ false ]
ends_null (x ∷ y ∷ rest) = ends_null (y ∷ rest)

place_arg-found :
    (limit : ℕ) (e : Entry) (i : ℕ) (l : List (Option Entry))
    → ends_null l ≡ true
    → ((place_arg limit e i l).1 ≡ true) × (length (place_arg limit e i l).2 ≡ length l)
unfolding place_arg
place_arg-found limit e i [] ends = ground arith
place_arg-found limit e i (none ∷ rest) ends = ground arith
place_arg-found limit e i (some x ∷ []) ends = ground arith
place_arg-found limit e i (some x ∷ y ∷ rest) ends =
    ground (arith, place_arg-found limit e (suc i) (y ∷ rest) ends)

place_env-found :
    (limit : ℕ) (e : Entry) (i : ℕ) (l : List (Option Entry))
    → ends_null l ≡ true
    → ((place_env limit e i l).1 ≡ true) × (length (place_env limit e i l).2 ≡ length l)
unfolding place_env
place_env-found limit e i [] ends = ground arith
place_env-found limit e i (none ∷ rest) ends = ground arith
place_env-found limit e i (some x ∷ []) ends = ground arith
place_env-found limit e i (some x ∷ y ∷ rest) ends =
    ground (arith, place_env-found limit e (suc i) (y ∷ rest) ends)

≡-or-< : (i limit : ℕ) → i ≤ limit → (i ≡ limit) ⊎ (suc i ≤ limit)
≡-or-< i limit low = omega arith

ends_null-cons :
    (x : Option Entry) (l : List (Option Entry)) → ends_null l ≡ true → ends_null (x ∷ l) ≡ true
ends_null-cons x [] ends = ground arith
ends_null-cons x (y ∷ rest) ends = ends

-- An array whose loop did not pass the limit still ends by NULL.
place_arg-ends :
    (limit : ℕ) (e : Entry) (i : ℕ) (l : List (Option Entry))
    → ends_null l ≡ true
    → i ≤ limit
    → i + length l ≡ limit + 2
    → ((place_arg limit e i l).0 ≡ true) ⊎ (ends_null (place_arg limit e i l).2 ≡ true)
unfolding place_arg
place_arg-ends limit e i [] ends low size = ground arith
place_arg-ends limit e i (none ∷ []) ends low size = absurd (omega arith)
place_arg-ends limit e i (none ∷ y ∷ rest) ends low size = inr ends
place_arg-ends limit e i (some x ∷ []) ends low size = ground arith
place_arg-ends limit e i (some x ∷ y ∷ rest) ends low size = elim (≡-or-< i limit low) [
  | inl here ↦ ground arith
  | inr before ↦ ground (
    arith,
    place_arg-ends limit e (suc i) (y ∷ rest) ends before (omega arith),
    ends_null-cons (some x) (place_arg limit e (suc i) (y ∷ rest)).2,
  )
]

place_env-ends :
    (limit : ℕ) (e : Entry) (i : ℕ) (l : List (Option Entry))
    → ends_null l ≡ true
    → i ≤ limit
    → i + length l ≡ limit + 2
    → ((place_env limit e i l).0 ≡ true) ⊎ (ends_null (place_env limit e i l).2 ≡ true)
unfolding place_env
place_env-ends limit e i [] ends low size = ground arith
place_env-ends limit e i (none ∷ []) ends low size = absurd (omega arith)
place_env-ends limit e i (none ∷ y ∷ rest) ends low size = inr ends
place_env-ends limit e i (some x ∷ []) ends low size = ground arith
place_env-ends limit e i (some x ∷ y ∷ rest) ends low size = elim (≡-or-< i limit low) [
  | inl here ↦ ground arith
  | inr before ↦ ground (
    arith,
    place_env-ends limit e (suc i) (y ∷ rest) ends before (omega arith),
    ends_null-cons (some x) (place_env limit e (suc i) (y ∷ rest)).2,
  )
]

clear_args-ends :
    (limit i : ℕ) (l : List (Option Entry))
    → ends_null l ≡ true
    → (ends_null (clear_args limit i l) ≡ true) × (length (clear_args limit i l) ≡ length l)
unfolding clear_args
clear_args-ends limit i [] ends = ground arith
clear_args-ends limit i (x ∷ []) ends = ground arith
clear_args-ends limit i (x ∷ y ∷ rest) ends =
    ground (arith, clear_args-ends limit (suc i) (y ∷ rest) ends)

-- Both arrays have their size and end by NULL, unless the kernel is to panic; no loop overran.
abbrev pub IsBounded : ℕ → Boot → Type 0
IsBounded limit b =
    (b.overrun ≡ false)
    × ((b.panic_later ≡ true)
        ⊎ ((ends_null b.argv_init ≡ true)
            × (length b.argv_init ≡ limit + 2)
            × (ends_null b.envp_init ≡ true)
            × (length b.envp_init ≡ limit + 2)))

-- What the command line may hold: an argument after `--`, an option that nobody knows, `init=` and
-- `rdinit=`.
pub data OptionCall : Type 0 where
  argument : BootOption → OptionCall
  unknown : BootOption → OptionCall
  init : ℕ → OptionCall
  rdinit : ℕ → OptionCall

pub option_call : ℕ → OptionCall → Boot → Boot
option_call limit (argument o) b = set_init_arg limit o b
option_call limit (unknown o) b = unknown_bootoption limit o b
option_call limit (init str) b = init_setup limit str b
option_call limit (rdinit str) b = rdinit_setup limit str b

pub after_options : ℕ → List OptionCall → Boot → Boot
after_options limit [] b = b
after_options limit (c ∷ rest) b = after_options limit rest (option_call limit c b)

option_call-IsBounded :
    (limit : ℕ) (c : OptionCall) (b : Boot)
    → IsBounded limit b
    → IsBounded limit (option_call limit c b)
unfolding option_call set_init_arg unknown_bootoption hand_to_init init_setup rdinit_setup
option_call-IsBounded limit (argument o) b bounded =
    ground (
      arith,
      place_arg-found limit o.entry 0 b.argv_init,
      place_arg-ends limit o.entry 0 b.argv_init,
    )
option_call-IsBounded limit (unknown o) b bounded = ground (
  arith,
  place_arg-found limit o.entry 0 b.argv_init,
  place_arg-ends limit o.entry 0 b.argv_init,
  place_env-found limit o.entry 0 b.envp_init,
  place_env-ends limit o.entry 0 b.envp_init,
)
option_call-IsBounded limit (init str) b bounded =
    ground (arith, clear_args-ends limit 0 b.argv_init)
option_call-IsBounded limit (rdinit str) b bounded =
    ground (arith, clear_args-ends limit 0 b.argv_init)

-- However many arguments and unknown options a command line has, in whatever order and with `init=` and
-- `rdinit=` between them, no loop over `argv_init` or `envp_init` runs past the end of its array, also
-- where an option overwrites the last NULL, since the kernel then gives up the rest; until then
-- both keep their NULL at the end.
pub after_options-IsBounded :
    (limit : ℕ) (l : List OptionCall) (b : Boot)
    → IsBounded limit b
    → IsBounded limit (after_options limit l b)
unfolding after_options
after_options-IsBounded limit [] b bounded = bounded
after_options-IsBounded limit (c ∷ rest) b bounded =
    after_options-IsBounded limit rest (option_call limit c b)
      (option_call-IsBounded limit c b bounded)
