-- ===== src/Priority.antt =====
-- Scheduling priorities, Kernel/kernel/sys.c: `setpriority` and `getpriority`.
pub mod Permitted
pub mod Readback
use so2_202003745_vd.Base.{
  ℕ, List, [], ◌∷◌, Bool, true, false, ◌&&◌, ◌||◌, not, ℤ, pos, negsuc, neg, ltb, ◌==◌, ◌==ℤ◌,
  is_zero, if◌then◌else◌, eperm, esrch, eacces, einval, ltz, word,
}

-- What the calls read of a thread: its number, its group's, its credentials and its nice value.
pub record Thread : Type 0 where
  pub pid : ℤ
  pub pgrp : ℤ
  pub uid : ℕ
  pub euid : ℕ
  pub user_ns : ℕ
  pub nice : ℤ

-- What the calls take from the rest of the kernel.
pub record Host : Type 0 where
  pub ns_capable : ℕ → ℕ → Bool
  pub can_nice : Thread → ℤ → Bool
  pub security_task_setnice : Thread → ℤ → ℤ
  pub make_kuid : ℕ → ℤ → ℕ
  -- whether `find_user` finds a user of that uid
  pub find_user : ℕ → Bool
  pub nice_to_rlimit : ℤ → ℤ

abbrev pub cap_sys_nice : ℕ
cap_sys_nice = 23

unfoldable pub set_one_prio_perm : Host → Thread → Thread → Bool
set_one_prio_perm h me p =
    if (p.uid == me.euid) || (p.euid == me.euid) then true else h.ns_capable p.user_ns cap_sys_nice

-- `set_one_prio`: the new value of `error`, and the thread then
unfoldable pub set_one_prio : Host → Thread → Thread → ℤ → ℤ → ℤ × Thread
unfolding set_one_prio_perm
set_one_prio h me p niceval error =
    if not (set_one_prio_perm h me p)
    then (neg eperm, p)
    else if ltz niceval p.nice && not (h.can_nice p niceval)
    then (neg eacces, p)
    else if not (is_zero (h.security_task_setnice p niceval))
    then (h.security_task_setnice p niceval, p)
    else (if error ==ℤ neg esrch then pos 0 else error, record p { nice = niceval })

-- The nice value between MIN_NICE and MAX_NICE.
abbrev pub clamp_nice : ℤ → ℤ
clamp_nice niceval =
    if ltz niceval (neg 20) then neg 20 else if ltz (pos 19) niceval then pos 19 else niceval

-- Which threads a call is about.
abbrev pub in_group : ℤ → Thread → Bool
in_group pgrp p = p.pgrp ==ℤ pgrp

abbrev pub of_user : ℕ → Thread → Bool
of_user uid p = (p.uid == uid) && not (is_zero p.pid)

-- `who`, or the caller's own for 0
abbrev pub or_own : ℤ → ℤ → ℤ
or_own who own = if is_zero who then own else who

abbrev pub user_of : Host → Thread → ℤ → ℕ
user_of h me who = if is_zero who then me.uid else h.make_kuid me.user_ns who

abbrev pub user_known : Host → Thread → ℤ → Bool
user_known h me who = (user_of h me who == me.uid) || h.find_user (user_of h me who)

-- The loops over the threads of a group or a user.
unfoldable pub set_all : Host → Thread → (Thread → Bool) → ℤ → ℤ → List Thread → ℤ × List Thread
set_all h me chosen niceval error [] = (error, [])
set_all h me chosen niceval error (p ∷ rest) =
    let (error', p') = (if chosen p then set_one_prio h me p niceval error else (error, p)) in
    let (last, rest') = set_all h me chosen niceval error' rest in (last, p' ∷ rest')

-- `find_task_by_vpid` and `set_one_prio` on the thread that it finds
unfoldable pub set_thread : Host → Thread → ℤ → ℤ → ℤ → List Thread → ℤ × List Thread
set_thread h me pid niceval error [] = (error, [])
set_thread h me pid niceval error (p ∷ rest) =
    let (error', p') = set_one_prio h me p niceval error in
    let (last, rest') = set_thread h me pid niceval error rest in
    if p.pid ==ℤ pid then (error', p' ∷ rest) else (last, p ∷ rest')

-- `setpriority`, called by the thread `me` of the list; PRIO_PROCESS is 0, PRIO_PGRP 1, PRIO_USER 2
unfoldable pub setpriority : Host → Thread → ℤ → ℤ → ℤ → List Thread → ℤ × List Thread
setpriority h me which who niceval threads =
    let n = clamp_nice niceval in
    if which ==ℤ pos 0
    then set_thread h me (or_own who me.pid) n (neg esrch) threads
    else if which ==ℤ pos 1
    then set_all h me (in_group (or_own who me.pgrp)) n (neg esrch) threads
    else if which ==ℤ pos 2
    then (if user_known h me who
        then set_all h me (of_user (user_of h me who)) n (neg esrch) threads
        else (neg esrch, threads))
    else (neg einval, threads)

abbrev pub larger : ℤ → ℤ → ℤ
larger niceval retval = if ltz retval niceval then niceval else retval

-- The loops of `getpriority`: the largest value.
unfoldable pub max_all : Host → (Thread → Bool) → ℤ → List Thread → ℤ
max_all h chosen retval [] = retval
max_all h chosen retval (p ∷ rest) =
    max_all h chosen (if chosen p then larger (h.nice_to_rlimit p.nice) retval else retval) rest

unfoldable pub get_thread : Host → ℤ → ℤ → List Thread → ℤ
get_thread h pid retval [] = retval
get_thread h pid retval (p ∷ rest) =
    let others = get_thread h pid retval rest in
    if p.pid ==ℤ pid then larger (h.nice_to_rlimit p.nice) retval else others

-- `getpriority`
unfoldable pub getpriority : Host → Thread → ℤ → ℤ → List Thread → ℤ
getpriority h me which who threads =
    if which ==ℤ pos 0
    then get_thread h (or_own who me.pid) (neg esrch) threads
    else if which ==ℤ pos 1
    then max_all h (in_group (or_own who me.pgrp)) (neg esrch) threads
    else if which ==ℤ pos 2
    then (if user_known h me who
        then max_all h (of_user (user_of h me who)) (neg esrch) threads
        else neg esrch)
    else neg einval
