-- ===== src/Base/Handler.antt =====
-- A system call: it reads and changes a state, and it ends by the value that it returns. `err`
-- is an early `return`; what was written before it stays written.
use mathlib.Core.Bool.{Bool, false}
use mathlib.Core.Path.{◌≡◌, refl}
use mathlib.Core.Logic.{◌⊎◌, inl, inr}
use mathlib.Core.Option.{Option, none, some}
use so2_202003745_vd.Base.Tests.{if◌then◌else◌}
use so2_202003745_vd.Base.Int.{ℤ, is_zero, is_neg}

pub data Result (A : Type 0) : Type 0 where
  ok : A → Result A
  err : ℤ → Result A

abbrev pub Call : Type 0 → Type 0 → Type 0
Call S A = S → Result A × S

infixl 5 ◌>>=◌ ◌>>◌
abbrev pub ◌>>=◌ : {S A B : Type 0} → Call S A → (A → Call S B) → Call S B
◌>>=◌ m f s = let (r, s') = m s in elim r [ ok a ↦ f a s' | err e ↦ (err e, s') ]

abbrev pub ◌>>◌ : {S A B : Type 0} → Call S A → Call S B → Call S B
m >> k = m >>= λ _. k

module _ {S : Type 0} where
  abbrev pub pure : {A : Type 0} → A → Call S A
  pure a s = (ok a, s)

  -- `if (c) return e;`
  abbrev pub return_if : Bool → ℤ → Call S (Unit {0})
  return_if c e s = (if c then err e else ok tt, s)

  -- `if (!p) return e;`
  abbrev pub non_null : {A : Type 0} → Option A → ℤ → Call S A
  non_null none e s = (err e, s)
  non_null (some a) e s = (ok a, s)

  -- `if (ret) return ret;`
  abbrev pub check : ℤ → Call S (Unit {0})
  check ret s = (if is_zero ret then ok tt else err ret, s)

  -- `if (ret < 0) return ret;`
  abbrev pub check_neg : ℤ → Call S (Unit {0})
  check_neg ret s = (if is_neg ret then err ret else ok tt, s)

  abbrev pub gets : {A : Type 0} → (S → A) → Call S A
  gets f s = (ok (f s), s)

  abbrev pub modify : (S → S) → Call S (Unit {0})
  modify f s = (ok tt, f s)

-- the value that user space sees
abbrev pub value : Result ℤ → ℤ
value (ok v) = v
value (err e) = e

abbrev pub enter : {S : Type 0} → Call S ℤ → S → ℤ × S
enter m s = let (r, s') = m s in (value r, s')

-- an early return of 0
abbrev pub returns_zero : {A : Type 0} → Result A → Bool
returns_zero (ok a) = false
returns_zero (err e) = is_zero e

pub Result-cases : {A : Type 0} (r : Result A) → ((a : A) × (r ≡ ok a)) ⊎ ((e : ℤ) × (r ≡ err e))
Result-cases (ok a) = inl (a, refl)
Result-cases (err e) = inr (e, refl)
