-- ===== src/Clone/WalkTree/Recursive.antt =====
-- The loop is the recursive visit: its way back over the links finds what comes after a child.
use mathlib.Core.List.{Memᴰ}
use mathlib.Core.List.Memᴰ.{head, tail}
use so2_202003745_vd.Base.{
  ℕ, zero, suc, ◌==◌, ◌≤◌, ◌≡◌, ◌≢◌, ◌⊎◌, ◌∙◌, ap, sym, true, false, List, [], ◌∷◌, ◌++◌, some,
  is_neg, is_zero, arith, refl, Bool-cases, inl, inr,
}
use so2_202003745_vd.Clone.WalkTree.{Tasks, Visitor, following, walk, walk_process_tree}
use so2_202003745_vd.Clone.WalkTree.Trees.{Forest, ended, next_thread, child, steps, visit}
use so2_202003745_vd.Clone.WalkTree.ByStack.{walk_stack, walk_stack-visit}

abbrev pub IsDistinct : List ℕ → Type 0
IsDistinct [] = Unit {0}
IsDistinct (x ∷ rest) = (¬ Memᴰ x rest) × IsDistinct rest

-- The lists and the links back agree, and no list names a task twice.
pub record IsLinked (tasks : Tasks) : Type 0 where
  pub parent_is : (p c : ℕ) → Memᴰ c (tasks.children p) → tasks.real_parent c ≡ p
  pub leader_is : (l t : ℕ) → Memᴰ t (tasks.threads l) → tasks.group_leader t ≡ l
  pub children_once : (p : ℕ) → IsDistinct (tasks.children p)
  pub threads_once : (l : ℕ) → IsDistinct (tasks.threads l)

-- What the lists hold below some threads and some children is a forest, without `top`.
pub data Unfolds (tasks : Tasks) (top : ℕ) : List ℕ → List ℕ → Forest → Type 0 where
  no_threads : Unfolds tasks top [] [] ended
  to_thread :
      (t : ℕ) (ts : List ℕ) (f : Forest)
      → Unfolds tasks top ts (tasks.children t) f
      → Unfolds tasks top (t ∷ ts) [] (next_thread f)
  to_child :
      (c : ℕ) (ts cs : List ℕ) (below rest : Forest)
      → c ≢ top
      → Unfolds tasks top (tasks.threads c) [] below
      → Unfolds tasks top ts cs rest
      → Unfolds tasks top ts (c ∷ cs) (child c below rest)

append_one : (xs : List ℕ) (x : ℕ) (ys : List ℕ) → (xs ++ x ∷ []) ++ ys ≡ xs ++ x ∷ ys
append_one [] x ys = refl
append_one (z ∷ xs) x ys = ap (λ l. z ∷ l) (append_one xs x ys)

Mem-middle : (x : ℕ) (before after : List ℕ) → Memᴰ x (before ++ x ∷ after)
Mem-middle x [] after = head refl
Mem-middle x (y ∷ before) after = tail (Mem-middle x before after)

following-middle :
    (x : ℕ) (before after : List ℕ)
    → IsDistinct (before ++ x ∷ after)
    → following x (before ++ x ∷ after) ≡ after
unfolding following
following-middle x [] after once = ground arith
following-middle x (y ∷ before) after (fresh, once) = elim (Bool-cases (y == x)) [
  | inl same ↦ absurd (fresh (rw (equal same) (Mem-middle x before after)))
  | inr other ↦ ground (arith, following-middle x before after once)
]
  where
    equal : (y == x) ≡ true → y ≡ x
    equal same = ground arith

module _ {S : Type 0} (tasks : Tasks) (v : Visitor S) (top : ℕ) (linked : IsLinked tasks) where
  -- Where the loops are: before the first child of a thread, or after a child of the thread `p`.
  abbrev Within : ℕ → List ℕ → List ℕ → Type 0
  Within leader ts cs =
      ((cs ≡ []) × (before : List ℕ) × (tasks.threads leader ≡ before ++ ts))
      ⊎ ((p : ℕ) × (before : List ℕ) × (passed : List ℕ) × (tasks.threads leader ≡ before ++ p ∷ ts)
          × (tasks.children p ≡ passed ++ cs))

  -- The links from a leader up to the top lead through what the list holds.
  data Stacked : ℕ → List Forest → Type 0 where
    at_top : Stacked top []
    entered_from :
        (c p l : ℕ) (ts cs : List ℕ) (rest : Forest) (entered : List Forest)
        → c ≢ top
        → tasks.real_parent c ≡ p
        → tasks.group_leader p ≡ l
        → following p (tasks.threads l) ≡ ts
        → following c (tasks.children p) ≡ cs
        → Unfolds tasks top ts cs rest
        → Within l ts cs
        → Stacked l entered
        → Stacked c (rest ∷ entered)

  -- The way up from a child is back to where it was met.
  enter_child :
      (leader c : ℕ) (ts cs : List ℕ) (rest : Forest) (entered : List Forest)
      → c ≢ top
      → Unfolds tasks top ts cs rest
      → Within leader ts (c ∷ cs)
      → Stacked leader entered
      → Stacked c (rest ∷ entered)
  enter_child leader c ts cs rest entered below_top unfolds (inl (none_left, _, _)) stacked =
      absurd (ground (arith, none_left))
  enter_child leader c ts cs rest entered below_top unfolds
        (inr (p, before, passed, threads, children)) stacked =
      entered_from c p leader ts cs rest entered below_top
        (linked.parent_is p c (rw children (Mem-middle c passed cs)))
        (linked.leader_is leader p (rw threads (Mem-middle p before ts)))
        (rw threads (following-middle p before ts (rw⁻¹ threads (linked.threads_once leader))))
        (rw children (following-middle c passed cs (rw⁻¹ children (linked.children_once p))))
        unfolds
        (inr (p, before, passed ++ c ∷ [], threads, children ∙ sym (append_one passed c cs)))
        stacked

  pass_child : (leader c : ℕ) (ts cs : List ℕ) → Within leader ts (c ∷ cs) → Within leader ts cs
  pass_child leader c ts cs (inl (none_left, _, _)) = absurd (ground (arith, none_left))
  pass_child leader c ts cs (inr (p, before, passed, threads, children)) =
      inr (p, before, passed ++ c ∷ [], threads, children ∙ sym (append_one passed c cs))

  next_parent :
      (leader t : ℕ) (ts : List ℕ) → Within leader (t ∷ ts) [] → Within leader ts (tasks.children t)
  next_parent leader t ts (inl (_, before, threads)) = inr (t, before, [], threads, refl)
  next_parent leader t ts (inr (p, before, passed, threads, _)) =
      inr (t, before ++ p ∷ [], [], threads ∙ sym (append_one before p (t ∷ ts)), refl)

  not_equal : (c : ℕ) → c ≢ top → (c == top) ≡ false
  not_equal c other = ground arith

  go_up :
      (n c p l : ℕ) (ts cs : List ℕ) (s : S)
      → c ≢ top
      → tasks.real_parent c ≡ p
      → tasks.group_leader p ≡ l
      → following p (tasks.threads l) ≡ ts
      → following c (tasks.children p) ≡ cs
      → walk tasks v top (suc n) c [] [] s ≡ walk tasks v top n l ts cs s
  unfolding walk
  go_up n c p l ts cs s below_top parent leader threads children =
      rw (walk, not_equal c below_top) (rw (parent, leader, threads, children) refl)

  -- Step by step the loops do what the loop with the list does.
  walk-walk_stack :
      (n leader : ℕ) (ts cs : List ℕ) (f : Forest) (entered : List Forest) (s : S)
      → Unfolds tasks top ts cs f
      → Within leader ts cs
      → Stacked leader entered
      → walk tasks v top n leader ts cs s ≡ walk_stack v n f entered s
  unfolding walk walk_stack
  walk-walk_stack zero leader ts cs f entered s unfolds within stacked = refl
  walk-walk_stack (suc n) leader [] [] ended [] s no_threads within at_top = ground arith
  walk-walk_stack (suc n) c [] [] ended (rest ∷ entered) s no_threads within
        (entered_from _ p l ts cs _ _ below_top parent leader threads children unfolds back
          stacked) =
      go_up n c p l ts cs s below_top parent leader threads children
      ∙ walk-walk_stack n l ts cs rest entered s unfolds back stacked
  walk-walk_stack (suc n) leader [] [] (next_thread f) entered s unfolds within stacked =
      elim unfolds [ ]
  walk-walk_stack (suc n) leader [] [] (child _ below rest) entered s unfolds within stacked =
      elim unfolds [ ]
  walk-walk_stack (suc n) leader (t ∷ ts) [] ended entered s unfolds within stacked =
      elim unfolds [ ]
  walk-walk_stack (suc n) leader (t ∷ ts) [] (child _ below rest) entered s unfolds within stacked =
      elim unfolds [ ]
  walk-walk_stack (suc n) leader ts (c ∷ cs) ended entered s unfolds within stacked =
      elim unfolds [ ]
  walk-walk_stack (suc n) leader ts (c ∷ cs) (next_thread f) entered s unfolds within stacked =
      elim unfolds [ ]
  walk-walk_stack (suc n) leader (t ∷ ts) [] (next_thread f) entered s (to_thread _ _ _ unfolds)
        within stacked =
      walk-walk_stack n leader ts (tasks.children t) f entered s unfolds
        (next_parent leader t ts within) stacked
  walk-walk_stack (suc n) leader ts (c ∷ cs) (child _ below rest) entered s
        (to_child _ _ _ _ _ below_top inside beside) within stacked =
      let (res, s') = v c s in
      elim (Bool-cases (is_neg res)) [
        | inl stop ↦ ground arith
        | inr goes_on ↦ elim (Bool-cases (is_zero res)) [
          | inl past ↦
              let same =
                walk-walk_stack n leader ts cs rest entered s' beside
                  (pass_child leader c ts cs within) stacked in
              ground arith
          | inr into ↦
              let same =
                walk-walk_stack n c (tasks.threads c) [] below (rest ∷ entered) s' inside
                  (inl (refl, [], refl))
                  (enter_child leader c ts cs rest entered below_top beside within stacked) in
              ground arith
        ]
      ]

-- Where the lists of threads and children agree with the links back, name no task twice, and unfold
-- from the group leader of a task to a finite tree in which that leader does not come again: the loop of
-- `walk_process_tree` ends, within a step for each thread and two for each descendant, and has called
-- the visitor in the order of the recursive visit, depth first, on the same data: below a child if the
-- visitor returned a positive number, beside it if 0, and no further after a negative one.
pub walk_process_tree-visit :
    {S : Type 0}
    → (tasks : Tasks) (v : Visitor S) (n top : ℕ) (tree : Forest) (s : S) → IsLinked tasks
    → let leader = tasks.group_leader top in
      Unfolds tasks leader (tasks.threads leader) [] tree
      → suc (steps tree) ≤ n
      → walk_process_tree tasks v n top s ≡ some (visit v tree s).1
unfolding walk_process_tree
walk_process_tree-visit tasks v n top tree s linked unfolds enough =
    let leader = tasks.group_leader top in
    walk-walk_stack tasks v leader linked n leader (tasks.threads leader) [] tree [] s unfolds
      (inl (refl, [], refl)) at_top
    ∙ walk_stack-visit v tree n s enough
