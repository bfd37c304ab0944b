-- ===== src/Start/Initcalls/Order.antt =====
-- Which calls are made, and in which order.
use mathlib.Core.List.{Memᴰ}
use so2_202003745_vd.Base.{
  ℕ, ◌≡◌, true, false, List, [], ◌∷◌, ◌++◌, ◌⊎◌, inl, inr, refl, sym, ap, ◌∙◌, arith,
}
use so2_202003745_vd.Start.Initcalls.{
  Initcall, Booting, Effect, initcall_blacklist, is_listed, initcall_blacklisted, do_one_initcall,
  do_initcall_level, do_initcalls,
}
use so2_202003745_vd.Start.Initcalls.Blacklist.{
  IsNamed, is_listed-Mem, Mem-is_listed, IsNamed-listed, listed-IsNamed, blacklist_leaves,
}

-- A log of calls, the latest first, that grows from the second list to the third: each call whose name
-- is not barred is put on it once, in order, and no other.
pub data Logs (IsBarred : ℕ → Type 0) : List Initcall → List ℕ → List ℕ → Type 0 where
  all_done : (made : List ℕ) → Logs IsBarred [] made made
  left_out :
      (fn : Initcall) (rest : List Initcall) (made log : List ℕ)
      → IsBarred fn.name
      → Logs IsBarred rest made log
      → Logs IsBarred (fn ∷ rest) made log
  called :
      (fn : Initcall) (rest : List Initcall) (made log : List ℕ)
      → ¬ IsBarred fn.name
      → Logs IsBarred rest (fn.name ∷ made) log
      → Logs IsBarred (fn ∷ rest) made log

Logs-append :
    {IsBarred : ℕ → Type 0}
    → (fns gs : List Initcall) (made middle log : List ℕ) → Logs IsBarred fns made middle
    → Logs IsBarred gs middle log
    → Logs IsBarred (fns ++ gs) made log
Logs-append [] gs made middle log (all_done _) later = later
Logs-append (fn ∷ rest) gs made middle log (left_out _ _ _ _ barred first) later =
    left_out fn (rest ++ gs) made log barred (Logs-append rest gs made middle log first later)
Logs-append (fn ∷ rest) gs made middle log (called _ _ _ _ free first) later =
    called fn (rest ++ gs) made log free
      (Logs-append rest gs (fn.name ∷ made) middle log first later)

-- A log that grows from an equal list.
Logs-from :
    {IsBarred : ℕ → Type 0}
    → (fns : List Initcall) (made made' log : List ℕ) → made ≡ made'
    → Logs IsBarred fns made log
    → Logs IsBarred fns made' log
Logs-from fns made made' log same logs = rw (sym same) logs

-- All calls, level by level.
pub all_calls : List (List Initcall) → List Initcall
all_calls [] = []
all_calls (level ∷ levels) = level ++ all_calls levels

-- What the calls leave: the log, the count of preemption as it was, and the interrupts enabled.
abbrev pub Ran : (ℕ → Type 0) → List Initcall → Booting → Booting → Type 0
Ran IsBarred fns b b' =
    Logs IsBarred fns b.calls b'.calls
    × (b'.preempt_count ≡ b.preempt_count)
    × (b'.irqs_disabled ≡ false)

-- The barred names are those on the list.
abbrev IsListOf : (ℕ → Type 0) → List ℕ → Type 0
IsListOf IsBarred l = ((n : ℕ) → Memᴰ n l → IsBarred n) × ((n : ℕ) → IsBarred n → Memᴰ n l)

-- One call: a name on the list is left out, another one is called and logged.
do_one_initcall-cases :
    (effect : Effect) (fn : Initcall) (b : Booting)
    → let b' = (do_one_initcall effect fn b).1 in
      ((is_listed fn.name b.blacklisted_initcalls ≡ true) × (b' ≡ b))
      ⊎ ((is_listed fn.name b.blacklisted_initcalls ≡ false)
          × (b'.blacklisted_initcalls ≡ b.blacklisted_initcalls)
          × (b'.calls ≡ fn.name ∷ b.calls)
          × (b'.preempt_count ≡ b.preempt_count)
          × (b'.irqs_disabled ≡ false))
unfolding do_one_initcall initcall_blacklisted
do_one_initcall-cases effect fn b = ground arith

module _ (IsBarred : ℕ → Type 0) (effect : Effect) where
  do_initcall_level-Ran :
      (fns : List Initcall) (b : Booting)
      → IsListOf IsBarred b.blacklisted_initcalls
      → b.irqs_disabled ≡ false
      → let b' = do_initcall_level effect fns b in
        Ran IsBarred fns b b' × (b'.blacklisted_initcalls ≡ b.blacklisted_initcalls)
  unfolding do_initcall_level
  do_initcall_level-Ran [] b lists enabled = ((all_done b.calls, refl, enabled), refl)
  do_initcall_level-Ran (fn ∷ rest) b lists enabled =
      let b1 = (do_one_initcall effect fn b).1 in
      let end = (do_initcall_level effect rest b1).calls in
      elim (do_one_initcall-cases effect fn b) [
        | inl (listed, same) ↦
            let ((log, count, irqs), list) =
              do_initcall_level-Ran rest b1 (rw same lists) (rw same enabled) in
            let barred = lists.0 fn.name (is_listed-Mem fn.name b.blacklisted_initcalls listed) in
            (
              (
                left_out fn rest b.calls end barred
                    (Logs-from rest b1.calls b.calls end (ap (λ c. c.calls) same) log),
                count ∙ ap (λ c. c.preempt_count) same,
                irqs,
              ),
              list ∙ ap (λ c. c.blacklisted_initcalls) same,
            )
        | inr (unlisted, list1, calls1, count1, irqs1) ↦
            let ((log, count, irqs), list) = do_initcall_level-Ran rest b1 (rw list1 lists) irqs1 in
            (
              (
                called fn rest b.calls end
                    (λ barred. ground (
                      arith,
                      Mem-is_listed fn.name b.blacklisted_initcalls (lists.1 fn.name barred),
                    ))
                    (Logs-from rest b1.calls (fn.name ∷ b.calls) end calls1 log),
                count ∙ count1,
                irqs,
              ),
              list ∙ list1,
            )
      ]

  levels-Ran :
      (levels : List (List Initcall)) (b : Booting)
      → IsListOf IsBarred b.blacklisted_initcalls
      → b.irqs_disabled ≡ false
      → Ran IsBarred (all_calls levels) b (do_initcalls effect levels b)
  unfolding do_initcalls all_calls
  levels-Ran [] b lists enabled = (all_done b.calls, refl, enabled)
  levels-Ran (level ∷ levels) b lists enabled =
      let b1 = do_initcall_level effect level b in
      let end = (do_initcalls effect levels b1).calls in
      let ((log, count, irqs), list) = do_initcall_level-Ran level b lists enabled in
      let (log', count', irqs') = levels-Ran levels b1 (rw list lists) irqs in
      (Logs-append level (all_calls levels) b.calls b1.calls end log log', count' ∙ count, irqs')

-- With the interrupts enabled, and after `initcall_blacklist` has been given some names, `do_initcalls`
-- makes every call whose name is not one of these, nor was on the blacklist before, exactly once, in
-- the order of the levels and within a level in that of its table, whatever the calls do and return; it
-- makes no other; the count of preemption is afterwards as before, and the interrupts are enabled.
pub do_initcalls-Ran :
    (effect : Effect) (names : List ℕ) (levels : List (List Initcall)) (b : Booting)
    → b.irqs_disabled ≡ false
    → Ran
        (IsNamed names b.blacklisted_initcalls)
        (all_calls levels)
        b
        (do_initcalls effect levels (initcall_blacklist names b))
do_initcalls-Ran effect names levels b enabled =
    let (calls, count, irqs) = blacklist_leaves names b in
    let (log, count', irqs') =
      levels-Ran (IsNamed names b.blacklisted_initcalls) effect levels (initcall_blacklist names b)
        (listed-IsNamed names b, IsNamed-listed names b) (irqs ∙ enabled) in
    (
      Logs-from (all_calls levels) (initcall_blacklist names b).calls b.calls _ calls log,
      count' ∙ count,
      irqs',
    )
