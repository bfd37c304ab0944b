-- ===== src/Examples/Trees.antt =====
-- A walk over a small tree of processes.
use mathlib.Core.List.{Memᴰ}
use mathlib.Core.List.Memᴰ.{head, tail}
use so2_202003745_vd.Base.{
  ℕ, zero, suc, ◌≢◌, ◌≡◌, List, [], ◌∷◌, some, pos, refl, arith, ◌==◌, if◌then◌else◌,
}
use so2_202003745_vd.Clone.WalkTree.{Tasks, Visitor, walk_process_tree}
use so2_202003745_vd.Clone.WalkTree.Trees.{Forest, ended, next_thread, child, steps, visit}
use so2_202003745_vd.Clone.WalkTree.Recursive.{
  IsDistinct, IsLinked, Unfolds, no_threads, to_thread, to_child, walk_process_tree-visit,
}

-- 0 and 1 are threads of 0; 2 is a child of 0 and has a child 3, 4 is a child of 1.
abbrev threads_of : ℕ → List ℕ
threads_of zero = 0 ∷ 1 ∷ []
threads_of (suc zero) = []
threads_of (suc (suc n)) = suc (suc n) ∷ []

abbrev children_of : ℕ → List ℕ
children_of zero = 2 ∷ []
children_of (suc zero) = 4 ∷ []
children_of (suc (suc zero)) = 3 ∷ []
children_of (suc (suc (suc n))) = []

abbrev leader_of : ℕ → ℕ
leader_of zero = 0
leader_of (suc zero) = 0
leader_of (suc (suc n)) = suc (suc n)

abbrev tasks : Tasks
tasks = record {
  threads = threads_of;
  children = children_of;
  real_parent = λ c. if c == 2 then 0 else if c == 3 then 2 else 1;
  group_leader = leader_of;
}

children-linked : (p c : ℕ) → Memᴰ c (children_of p) → tasks.real_parent c ≡ p
children-linked zero c (head e) = rw e refl
children-linked zero c (tail m) = elim m [ ]
children-linked (suc zero) c (head e) = rw e refl
children-linked (suc zero) c (tail m) = elim m [ ]
children-linked (suc (suc zero)) c (head e) = rw e refl
children-linked (suc (suc zero)) c (tail m) = elim m [ ]
children-linked (suc (suc (suc n))) c m = elim m [ ]

threads-linked : (l t : ℕ) → Memᴰ t (threads_of l) → leader_of t ≡ l
threads-linked zero t (head e) = rw e refl
threads-linked zero t (tail (head e)) = rw e refl
threads-linked zero t (tail (tail m)) = elim m [ ]
threads-linked (suc zero) t m = elim m [ ]
threads-linked (suc (suc n)) t (head e) = rw e refl
threads-linked (suc (suc n)) t (tail m) = elim m [ ]

once : (x : ℕ) → IsDistinct (x ∷ [])
once x = ((λ m. elim m [ ]), tt)

children-IsDistinct : (p : ℕ) → IsDistinct (children_of p)
children-IsDistinct zero = once 2
children-IsDistinct (suc zero) = once 4
children-IsDistinct (suc (suc zero)) = once 3
children-IsDistinct (suc (suc (suc n))) = tt

not_in_one : (x y : ℕ) → x ≢ y → ¬ Memᴰ x (y ∷ [])
not_in_one x y other (head e) = other e
not_in_one x y other (tail m) = elim m [ ]

threads-IsDistinct : (l : ℕ) → IsDistinct (threads_of l)
threads-IsDistinct zero = (not_in_one 0 1 (λ e. ground (arith, e)), once 1)
threads-IsDistinct (suc zero) = tt
threads-IsDistinct (suc (suc n)) = once (suc (suc n))

tasks-IsLinked : IsLinked tasks
tasks-IsLinked = record {
  parent_is = children-linked;
  leader_is = threads-linked;
  children_once = children-IsDistinct;
  threads_once = threads-IsDistinct;
}

abbrev tree : Forest
tree = next_thread (
    child 2 (next_thread (child 3 (next_thread ended) ended))
      (next_thread (child 4 (next_thread ended) ended)))

tasks-Unfolds : Unfolds tasks 0 (threads_of 0) [] tree
tasks-Unfolds = to_thread 0 (1 ∷ []) _ (
    to_child 2 (1 ∷ []) [] _ _ (λ e. ground (arith, e))
      (to_thread 2 [] _ (
        to_child 3 [] [] _ _ (λ e. ground (arith, e)) (to_thread 3 [] ended no_threads) no_threads))
      (to_thread 1 [] _ (
        to_child 4 [] [] _ _ (λ e. ground (arith, e)) (to_thread 4 [] ended no_threads)
          no_threads)))

abbrev log_all : Visitor (List ℕ)
log_all pid log = (pos 1, pid ∷ log)

walk_process_tree-visit_example :
    walk_process_tree tasks log_all 12 1 [] ≡ some (visit log_all tree []).1
unfolding steps
walk_process_tree-visit_example =
    walk_process_tree-visit tasks log_all 12 1 tree [] tasks-IsLinked tasks-Unfolds (omega arith)
