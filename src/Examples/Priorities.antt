-- ===== src/Examples/Priorities.antt =====
-- A shell and a job of the same user, and a daemon of another user.
use so2_202003745_vd.Base.{List, [], ◌∷◌, true, false, ℤ, pos, negsuc, ◌-◌, ◌+◌}
use so2_202003745_vd.Priority.{Thread, Host, setpriority}
use so2_202003745_vd.Priority.Permitted.{AllReniced, BroughtInto, setpriority-AllReniced}

abbrev shell : Thread
shell = record { pid = pos 10; pgrp = pos 10; uid = 1000; euid = 1000; user_ns = 0; nice = pos 0 }

abbrev job : Thread
job = record { pid = pos 11; pgrp = pos 11; uid = 1000; euid = 1000; user_ns = 0; nice = pos 5 }

abbrev daemon : Thread
daemon = record { pid = pos 12; pgrp = pos 11; uid = 33; euid = 33; user_ns = 0; nice = pos 0 }

abbrev threads : List Thread
threads = shell ∷ job ∷ daemon ∷ []

-- 20 - nice
abbrev rlimit_of : ℤ → ℤ
rlimit_of (pos n) = pos (20 - n)
rlimit_of (negsuc n) = pos (21 + n)

abbrev host : Host
host = record {
  ns_capable = λ ns c. false;
  can_nice = λ p n. false;
  security_task_setnice = λ p n. pos 0;
  make_kuid = λ ns id. 33;
  find_user = λ id. true;
  nice_to_rlimit = rlimit_of;
}

setpriority-AllReniced_example :
    (n : ℤ) × BroughtInto (pos 40) n
    × AllReniced host shell n threads (setpriority host shell (pos 1) (pos 11) (pos 40) threads).1
setpriority-AllReniced_example = setpriority-AllReniced host shell (pos 1) (pos 11) (pos 40) threads
