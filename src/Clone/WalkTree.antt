-- ===== src/Clone/WalkTree.antt =====
-- `walk_process_tree`, Kernel/kernel/fork.c: a visit of the descendants of a process without recursion.
pub mod Trees
pub mod ByStack
pub mod Recursive
use so2_202003745_vd.Base.{
  ℕ, zero, suc, ◌==◌, true, false, List, [], ◌∷◌, Option, none, some, ℤ, is_neg, is_zero,
  if◌then◌else◌,
}

-- What links the tasks while `tasklist_lock` is held: the threads of a leader in the order of
-- `for_each_thread`, the list `children` of a thread, `real_parent` and `group_leader`.
pub record Tasks : Type 0 where
  pub threads : ℕ → List ℕ
  pub children : ℕ → List ℕ
  pub real_parent : ℕ → ℕ
  pub group_leader : ℕ → ℕ

-- `visitor(child, data)`: negative to stop, 0 to go on beside the child, else to go on below it.
abbrev pub Visitor : Type 0 → Type 0
Visitor S = ℕ → S → ℤ × S

-- What a list has after an entry: where a loop over the list goes on.
unfoldable pub following : ℕ → List ℕ → List ℕ
following x [] = []
following x (y ∷ rest) = let others = following x rest in if y == x then rest else others

-- The loops, in the threads of `leader` after `parent` and in the children of `parent` after `child`. At
-- the end of both, `up` goes on after the leader in the children of its parent, and after that in the
-- threads beside the parent. None is for a lack of fuel.
unfoldable pub walk : {S : Type 0} → Tasks → Visitor S → ℕ → ℕ → ℕ → List ℕ → List ℕ → S → Option S
walk tasks v top zero leader threads children s = none
walk tasks v top (suc n) leader threads (child ∷ children) s =
    let (res, s') = v child s in
    elim (is_neg res) [
      | true ↦ some s'
      | false ↦ elim (is_zero res) [
        | true ↦ walk tasks v top n leader threads children s'
        | false ↦ walk tasks v top n child (tasks.threads child) [] s'
      ]
    ]
walk tasks v top (suc n) leader (parent ∷ threads) [] s =
    walk tasks v top n leader threads (tasks.children parent) s
walk tasks v top (suc n) leader [] [] s = elim (leader == top) [
  | true ↦ some s
  | false ↦
      let parent = tasks.real_parent leader in
      let leader' = tasks.group_leader parent in
      walk tasks v top n leader' (following parent (tasks.threads leader'))
        (following leader (tasks.children parent)) s
]

-- The call, with fuel for `n` steps of the loops.
unfoldable pub walk_process_tree : {S : Type 0} → Tasks → Visitor S → ℕ → ℕ → S → Option S
walk_process_tree tasks v n top s =
    let leader = tasks.group_leader top in walk tasks v leader n leader (tasks.threads leader) [] s
