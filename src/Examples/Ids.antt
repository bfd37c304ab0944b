-- ===== src/Examples/Ids.antt =====
-- Runs of the system calls on user and group ids: a set-user-id program run by user 1000, and a
-- privileged server.
use so2_202003745_vd.Base.{refl, List, [], ◌∷◌, some, true, false, pos, enter}
use so2_202003745_vd.Task.{Cred}
use so2_202003745_vd.Credentials.{Process, Host, set_user, account, flag_nproc_exceeded}
use so2_202003745_vd.Credentials.User.{sys_setuid, finish}
use so2_202003745_vd.Credentials.User.Unprivileged.{
  NoGain, IsOnly, Request, run, run-NoGain, setuid_drops_for_good,
}

-- user 1000 running a program of user 33
abbrev set_id_cred : Cred
set_id_cred = record {
  uid = 1000;
  gid = 1000;
  suid = 33;
  sgid = 33;
  euid = 33;
  egid = 33;
  fsuid = 33;
  fsgid = 33;
  user = 1;
  ucounts = 1;
  user_ns = 0;
}

abbrev set_id_program : Process
set_id_program = record { cred = set_id_cred; nproc_exceeded = false }

abbrev root_server : Process
root_server = record {
  cred = record {
    uid = 0;
    gid = 0;
    suid = 0;
    sgid = 0;
    euid = 0;
    egid = 0;
    fsuid = 0;
    fsgid = 0;
    user = 0;
    ucounts = 0;
    user_ns = 0;
  };
  nproc_exceeded = false;
}

abbrev unprivileged : Host
unprivileged = record {
  make_kuid = λ ns id. id;
  make_kgid = λ ns id. id;
  from_kuid_munged = λ ns id. id;
  from_kgid_munged = λ ns id. id;
  uid_valid = λ id. true;
  gid_valid = λ id. true;
  ns_capable_setid = λ ns c. false;
  prepare_creds = true;
  security_task_fix_setuid = λ n o f. pos 0;
  security_task_fix_setgid = λ n o f. pos 0;
  alloc_uid = λ id. some id;
  set_cred_ucounts = λ c. (pos 0, c.uid);
  is_rlimit_overlimit = λ u. false;
  init_user = 0;
}

abbrev privileged : Host
privileged = record unprivileged { ns_capable_setid = λ ns c. true }

abbrev attempts : List Request
attempts = Request.setreuid 33 1000 ∷ Request.setuid 0 ∷ Request.setresuid 1000 33 33 ∷ []

run-NoGain_example : NoGain set_id_cred (run unprivileged attempts set_id_program).cred
run-NoGain_example = run-NoGain unprivileged attempts set_id_program refl

setuid_drops_for_good_example :
    IsOnly 33 (run unprivileged attempts (enter (sys_setuid privileged 33) root_server).1).cred
unfolding sys_setuid finish set_user account flag_nproc_exceeded
setuid_drops_for_good_example =
    setuid_drops_for_good privileged 33 attempts root_server refl refl unprivileged refl
