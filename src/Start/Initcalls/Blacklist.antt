-- ===== src/Start/Initcalls/Blacklist.antt =====
-- Which names are on the blacklist.
use mathlib.Core.List.{Memᴰ}
use mathlib.Core.List.Memᴰ.{head, tail}
use so2_202003745_vd.Base.{
  ℕ, ◌≡◌, true, ◌==◌, List, [], ◌∷◌, ◌⊎◌, inl, inr, refl, arith, Bool-cases,
}
use so2_202003745_vd.Start.Initcalls.{Booting, initcall_blacklist, is_listed}

pub is_listed-Mem : (n : ℕ) (l : List ℕ) → is_listed n l ≡ true → Memᴰ n l
unfolding is_listed
is_listed-Mem n [] h = absurd (ground arith)
is_listed-Mem n (entry ∷ rest) h = elim (Bool-cases (n == entry)) [
  | inl same ↦ head (ground arith)
  | inr other ↦ tail (is_listed-Mem n rest (ground arith))
]

pub Mem-is_listed : (n : ℕ) (l : List ℕ) → Memᴰ n l → is_listed n l ≡ true
unfolding is_listed
Mem-is_listed n [] none_in = elim none_in [ ]
Mem-is_listed n (entry ∷ rest) (head same) = ground arith
Mem-is_listed n (entry ∷ rest) (tail later) = ground (arith, Mem-is_listed n rest later)

-- A name that `initcall_blacklist` is given, or that was on the list before.
abbrev pub IsNamed : List ℕ → List ℕ → ℕ → Type 0
IsNamed names before n = Memᴰ n names ⊎ Memᴰ n before

pub IsNamed-listed :
    (names : List ℕ) (b : Booting) (n : ℕ)
    → IsNamed names b.blacklisted_initcalls n
    → Memᴰ n (initcall_blacklist names b).blacklisted_initcalls
unfolding initcall_blacklist
IsNamed-listed [] b n (inl none_in) = elim none_in [ ]
IsNamed-listed [] b n (inr listed) = listed
IsNamed-listed (name ∷ rest) b n (inl (head same)) =
    IsNamed-listed rest (record b { blacklisted_initcalls = name ∷ b.blacklisted_initcalls }) n
      (inr (head same))
IsNamed-listed (name ∷ rest) b n (inl (tail later)) =
    IsNamed-listed rest (record b { blacklisted_initcalls = name ∷ b.blacklisted_initcalls }) n
      (inl later)
IsNamed-listed (name ∷ rest) b n (inr listed) =
    IsNamed-listed rest (record b { blacklisted_initcalls = name ∷ b.blacklisted_initcalls }) n
      (inr (tail listed))

pub listed-IsNamed :
    (names : List ℕ) (b : Booting) (n : ℕ)
    → Memᴰ n (initcall_blacklist names b).blacklisted_initcalls
    → IsNamed names b.blacklisted_initcalls n
unfolding initcall_blacklist
listed-IsNamed [] b n listed = inr listed
listed-IsNamed (name ∷ rest) b n listed =
    let b' : Booting = record b { blacklisted_initcalls = name ∷ b.blacklisted_initcalls } in
    elim (listed-IsNamed rest b' n listed) [
      | inl later ↦ inl (tail later)
      | inr (head same) ↦ inl (head same)
      | inr (tail before) ↦ inr before
    ]

pub blacklist_leaves :
    (names : List ℕ) (b : Booting)
    → let b' = initcall_blacklist names b in
      (b'.calls ≡ b.calls)
      × (b'.preempt_count ≡ b.preempt_count)
      × (b'.irqs_disabled ≡ b.irqs_disabled)
unfolding initcall_blacklist
blacklist_leaves [] b = (refl, refl, refl)
blacklist_leaves (name ∷ rest) b =
    blacklist_leaves rest (record b { blacklisted_initcalls = name ∷ b.blacklisted_initcalls })
