-- ===== src/Examples/Attributes.antt =====
-- Setting attributes of a task by `prctl`.
use so2_202003745_vd.Base.{
  ◌≤◌, ◌<◌, ◌≡◌, ◌⊎◌, refl, [], none, true, false, pos, neg, einval, enosys, ℕ,
}
use so2_202003745_vd.Prctl.{mce_kill, mce_kill_get, Attributes, PrHost, prctl}
use so2_202003745_vd.Prctl.Roundtrip.{mce_args, get_args, mce_kill_get-mce_kill}

abbrev attributes : Attributes
attributes = record {
  pdeath_signal = 0;
  dumpable = 1;
  timer_slack_ns = 50000;
  default_timer_slack_ns = 50000;
  pf_mce_process = false;
  pf_mce_early = false;
  is_child_subreaper = false;
  no_new_privs = true;
  mmf_disable_thp = false;
  io_flusher = false;
  comm = [];
  written = none;
  written_name = none;
}

abbrev host : PrHost
host = record {
  security_task_prctl = λ o a. neg enosys;
  can_put_user = λ a. true;
  strncpy_from_user = λ a. none;
  capable = λ c. false;
  is_lock_killed = false;
  serve = λ n a. neg einval;
}

-- PR_MCE_KILL_EARLY
mce_kill_get-mce_kill_example :
    ((1 ≤ 2)
      × ((prctl host mce_kill (mce_args 1) attributes).0 ≡ pos 0)
      × ((prctl host mce_kill_get get_args (prctl host mce_kill (mce_args 1) attributes).1).0
          ≡ pos 1))
    ⊎ ((2 < 1)
        × ((prctl host mce_kill (mce_args 1) attributes).0 ≡ neg einval)
        × ((prctl host mce_kill (mce_args 1) attributes).1.pf_mce_process ≡ true)
        × (q : ℕ) × ((prctl host mce_kill_get get_args
              (prctl host mce_kill (mce_args 1) attributes).1).0
            ≡ pos q)
        × (q < 2))
mce_kill_get-mce_kill_example = mce_kill_get-mce_kill host 1 attributes refl refl
