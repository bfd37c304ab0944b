-- ===== src/IoThrottle/Laws.antt =====
-- Which processes are reported.
use so2_202003745_vd.Base.{
  ℕ, zero, suc, ◌+◌, ◌-◌, ◌≡◌, ◌≤◌, ◌≢◌, ◌⊎◌, refl, sym, List, [], ◌∷◌, length, take,
  length-take-le, Option, some, Bool, pos, inl, inr, enter, arith, Bool-cases, leb, if◌then◌else◌,
}
use so2_202003745_vd.IoThrottle.{
  Process, IoStats, AllIoStats, max_procs, is_idle, entry_of, collect, luis_get_io_throttle,
}

-- the entries of all processes that have read or written, in order
abbrev pub active_entries : List Process → List IoStats
active_entries [] = []
active_entries (task ∷ rest) =
    if is_idle task then active_entries rest else entry_of task ∷ active_entries rest

take-nil : (n : ℕ) → take {A = IoStats} n [] ≡ []
take-nil zero = refl
take-nil (suc n) = refl

collect-take : (i : ℕ) (l : List Process) → collect i l ≡ take (max_procs - i) (active_entries l)
unfolding collect
collect-take i [] = sym (take-nil (max_procs - i))
collect-take i (task ∷ rest) =
    let skipped = collect-take i rest in
    let filled = collect-take (i + 1) rest in
    elim (Bool-cases (is_idle task)) [
      | inl idle ↦ rw idle skipped
      | inr active ↦ elim (Bool-cases (leb max_procs i)) [
        | inl full ↦
            let none_left : max_procs - i ≡ 0 = ground arith in rw (active, full, none_left)
        | inr free ↦
            let one_more : max_procs - i ≡ suc (max_procs - (i + 1)) = ground arith in
            rw (active, free, one_more, filled)
      ]
    ]

-- A return of 0 of `luis_get_io_throttle` has given to user space the first 20 of the processes that have read or written,
-- in the order of the process list, or all of them if there are fewer, and their number; a process
-- that has done neither is not reported. On any other return nothing is written.
pub io_throttle_reports :
    (processes : List Process) (access_ok copied : Bool) (before : Option AllIoStats)
    → let (ret, user) = enter (luis_get_io_throttle processes access_ok copied) before in
      ((ret ≡ pos 0)
        × (user
            ≡ some (record {
              stats = take 20 (active_entries processes);
              num_procs = length (take 20 (active_entries processes));
            }))
        × (length (take 20 (active_entries processes)) ≤ 20))
      ⊎ ((ret ≢ pos 0) × (user ≡ before))
unfolding luis_get_io_throttle
io_throttle_reports processes access_ok copied before =
    ground (arith, collect-take 0 processes, length-take-le 20 (active_entries processes))
