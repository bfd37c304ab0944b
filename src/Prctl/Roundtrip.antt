-- ===== src/Prctl/Roundtrip.antt =====
-- What is set is read back, and the one refusal that changes something.
use so2_202003745_vd.Base.{ℕ, ◌≤◌, ◌<◌, ◌≡◌, ◌⊎◌, true, pos, neg, arith, einval, enosys}
use so2_202003745_vd.Prctl.{
  mce_kill, mce_kill_get, Args, Attributes, PrHost, mce_set, mce_kill_option, mce_kill_policy,
  serve_option, prctl, pr_mce_kill_set, pr_mce_kill_default,
}

-- `policy` as the arguments of PR_MCE_KILL with PR_MCE_KILL_SET
abbrev pub mce_args : ℕ → Args
mce_args policy = record { arg2 = pr_mce_kill_set; arg3 = policy; arg4 = 0; arg5 = 0 }

abbrev pub get_args : Args
get_args = record { arg2 = 0; arg3 = 0; arg4 = 0; arg5 = 0 }

-- Where the security module leaves both calls to `prctl`: a policy for machine checks that can be set
-- is the one that is read back; one that does not exist is refused, and all the same the task is marked,
-- so that what is read back then is not the default.
pub mce_kill_get-mce_kill :
    (host : PrHost) (policy : ℕ) (s : Attributes)
    → host.security_task_prctl mce_kill (mce_args policy) ≡ neg enosys
    → host.security_task_prctl mce_kill_get get_args ≡ neg enosys
    → let (ret, s') = prctl host mce_kill (mce_args policy) s in
      ((policy ≤ pr_mce_kill_default)
        × (ret ≡ pos 0)
        × ((prctl host mce_kill_get get_args s').0 ≡ pos policy))
      ⊎ ((pr_mce_kill_default < policy)
          × (ret ≡ neg einval)
          × (s'.pf_mce_process ≡ true)
          × (q : ℕ) × ((prctl host mce_kill_get get_args s').0 ≡ pos q)
          × (q < pr_mce_kill_default))
unfolding prctl serve_option mce_kill_option mce_set mce_kill_policy
mce_kill_get-mce_kill host policy s set get = ground arith
