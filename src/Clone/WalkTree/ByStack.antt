-- ===== src/Clone/WalkTree/ByStack.antt =====
-- The visit by a loop that keeps what comes after each child that was entered.
use so2_202003745_vd.Base.{
  ℕ, zero, suc, ◌+◌, ◌≤◌, ◌≡◌, ◌⊎◌, Bool, true, false, List, [], ◌∷◌, Option, none, some, is_neg,
  is_zero, arith, refl, Bool-cases, inl, inr,
}
use so2_202003745_vd.Clone.WalkTree.{Visitor}
use so2_202003745_vd.Clone.WalkTree.Trees.{Forest, ended, next_thread, child, steps, visit}

unfoldable pub walk_stack : {S : Type 0} → Visitor S → ℕ → Forest → List Forest → S → Option S
walk_stack v zero f entered s = none
walk_stack v (suc n) ended [] s = some s
walk_stack v (suc n) ended (after ∷ entered) s = walk_stack v n after entered s
walk_stack v (suc n) (next_thread rest) entered s = walk_stack v n rest entered s
walk_stack v (suc n) (child pid below rest) entered s =
    let (res, s') = v pid s in
    elim (is_neg res) [
      | true ↦ some s'
      | false ↦ elim (is_zero res) [
        | true ↦ walk_stack v n rest entered s'
        | false ↦ walk_stack v n below (rest ∷ entered) s'
      ]
    ]

-- What is left of the loop after the visit of a forest.
abbrev Resumes : {S : Type 0} → Visitor S → ℕ → List Forest → Bool × S → Option S → Type 0
Resumes v n entered (goes_on, s) result =
    ((goes_on ≡ true) × (result ≡ walk_stack v n ended entered s))
    ⊎ ((goes_on ≡ false) × (result ≡ some s))

-- With fuel `n` for a forest, the loop visits it and has used at most its steps.
abbrev Walks : {S : Type 0} → Visitor S → Forest → List Forest → ℕ → S → Type 0
Walks v f entered n s =
    (m : ℕ) × (n ≤ m + steps f) × Resumes v m entered (visit v f s) (walk_stack v n f entered s)

-- The same, at the end of what comes below a child, for what comes after it.
resume_after :
    {S : Type 0}
    → (v : Visitor S) (rest : Forest) (entered : List Forest) (n below : ℕ) (s : S)
    → below + suc (steps rest) ≤ n
    → ((k : ℕ) → steps rest ≤ k → Walks v rest entered k s)
    → (m : ℕ) → n ≤ m + below
    → (m' : ℕ) × (n ≤ m' + suc (below + steps rest))
      × Resumes v m' entered (visit v rest s) (walk_stack v m ended (rest ∷ entered) s)
unfolding walk_stack
resume_after v rest entered n below s enough later zero used = absurd (omega arith)
resume_after v rest entered n below s enough later (suc m) used =
    let (m', most, resumed) = later m (omega arith) in (m', omega arith, resumed)

walk-Walks :
    {S : Type 0}
    → (v : Visitor S) (f : Forest) (entered : List Forest) (n : ℕ) (s : S) → steps f ≤ n
    → Walks v f entered n s
unfolding walk_stack visit steps
walk-Walks v ended entered n s enough = (n, omega arith, inl (refl, refl))
walk-Walks v (next_thread rest) entered zero s enough = absurd (omega arith)
walk-Walks v (next_thread rest) entered (suc n) s enough =
    let (m, used, resumed) = walk-Walks v rest entered n s (omega arith) in
    (m, omega arith, resumed)
walk-Walks v (child pid below rest) entered zero s enough = absurd (omega arith)
walk-Walks v (child pid below rest) entered (suc n) s enough =
    let (res, s') = v pid s in
    elim (Bool-cases (is_neg res)) [
      | inl stop ↦ (n, omega arith, ground arith)
      | inr nonneg ↦ elim (Bool-cases (is_zero res)) [
        | inl beside ↦
            let (m, used, resumed) = walk-Walks v rest entered n s' (omega arith) in
            (m, omega arith, ground arith)
        | inr inside ↦
            let (m, used, resumed) = walk-Walks v below (rest ∷ entered) n s' (omega arith) in
            let (go, s'') = visit v below s' in
            elim resumed [
              | inr (stopped, same) ↦ (m, omega arith, ground arith)
              | inl (finished, same) ↦
                  let (m', most, after) =
                    resume_after v rest entered n (steps below) s'' (omega arith)
                      (λ k h. walk-Walks v rest entered k s'' h) m used in
                  (m', omega arith, ground arith)
            ]
      ]
    ]

walk_finished :
    {S : Type 0}
    → (v : Visitor S) (m : ℕ) (answer : Bool × S) (result : Option S) → 1 ≤ m
    → Resumes v m [] answer result
    → result ≡ some answer.1
unfolding walk_stack
walk_finished v zero answer result some_left resumed = absurd (omega arith)
walk_finished v (suc m) (go, s) result some_left (inl (finished, same)) = same
walk_finished v (suc m) (go, s) result some_left (inr (stopped, same)) = same

pub walk_stack-visit :
    {S : Type 0}
    → (v : Visitor S) (f : Forest) (n : ℕ) (s : S) → suc (steps f) ≤ n
    → walk_stack v n f [] s ≡ some (visit v f s).1
walk_stack-visit v f n s enough =
    let (m, used, resumed) = walk-Walks v f [] n s (omega arith) in
    walk_finished v m (visit v f s) (walk_stack v n f [] s) (omega arith) resumed
