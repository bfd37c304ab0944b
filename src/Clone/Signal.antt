-- ===== src/Clone/Signal.antt =====
-- What a child gets of its parent's limits: the part of `copy_signal` that copies `rlim`, and
-- `copy_oom_score_adj`, Kernel/kernel/fork.c.
use so2_202003745_vd.Base.{ℕ, Bool, true, ◌||◌, not, ◌==◌, if◌then◌else◌}
use so2_202003745_vd.Clone.{test_bit, clone_vm, clone_thread, clone_vfork}
use so2_202003745_vd.Rlimit.{Machine}

-- The limits after a fork, with the number of the new signal struct: a thread shares that of its
-- parent, and nothing is copied.
unfoldable pub copy_rlim : ℕ → ℕ → ℕ → Machine → Machine
copy_rlim flags parent child m = if test_bit clone_thread flags then m else record m {
  rlim = λ signal r. if signal == child then m.rlim parent r else m.rlim signal r;
}

-- The two values of a signal struct for the killer of processes, and whether its address space is
-- marked as that of several processes.
pub record Oom : Type 0 where
  pub oom_score_adj : ℕ
  pub oom_score_adj_min : ℕ
  pub mmf_multiprocess : Bool

-- `(clone_flags & (CLONE_VM | CLONE_THREAD | CLONE_VFORK)) != CLONE_VM`
abbrev pub is_own_or_thread : ℕ → Bool
is_own_or_thread flags =
    not (test_bit clone_vm flags) || test_bit clone_thread flags || test_bit clone_vfork flags

unfoldable pub copy_oom_score_adj : Bool → ℕ → Oom → Oom → Oom
copy_oom_score_adj has_mm flags current tsk =
    if not has_mm then tsk else if is_own_or_thread flags then tsk else record {
      oom_score_adj = current.oom_score_adj;
      oom_score_adj_min = current.oom_score_adj_min;
      mmf_multiprocess = true;
    }
