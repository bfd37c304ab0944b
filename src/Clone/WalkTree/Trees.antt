-- ===== src/Clone/WalkTree/Trees.antt =====
-- The descendants of a process as a tree, and the recursive visit of it.
use so2_202003745_vd.Base.{ℕ, suc, ◌+◌, Bool, true, false, is_neg, is_zero}
use so2_202003745_vd.Clone.WalkTree.{Visitor}

-- The children of a process in the order in which they are met, with the children of a thread after
-- those of the thread before: the end of the last thread, the end of what came before another thread, or
-- a child with its own children and what comes after it.
pub data Forest : Type 0 where
  ended : Forest
  next_thread : Forest → Forest
  child : ℕ → Forest → Forest → Forest

-- A step for each thread and two for each child.
unfoldable pub steps : Forest → ℕ
steps ended = 0
steps (next_thread rest) = suc (steps rest)
steps (child pid below rest) = suc (suc (steps below + steps rest))

-- The visit in depth first order: whether it was not stopped, and the data then.
unfoldable pub visit : {S : Type 0} → Visitor S → Forest → S → Bool × S
visit v ended s = (true, s)
visit v (next_thread rest) s = visit v rest s
visit v (child pid below rest) s =
    let (res, s') = v pid s in
    elim (is_neg res) [
      | true ↦ (false, s')
      | false ↦ elim (is_zero res) [
        | true ↦ visit v rest s'
        | false ↦
            let (goes_on, s'') = visit v below s' in
            elim goes_on [ true ↦ visit v rest s'' | false ↦ (false, s'') ]
      ]
    ]
