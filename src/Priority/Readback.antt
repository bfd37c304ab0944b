-- ===== src/Priority/Readback.antt =====
-- What `getpriority` reads after `setpriority`.
use so2_202003745_vd.Base.{ltz, ◌≡◌, List, [], ◌∷◌, true, ℤ, pos, neg, arith, esrch}
use so2_202003745_vd.Priority.{
  Thread, Host, set_one_prio, set_thread, get_thread, setpriority, getpriority, clamp_nice, or_own,
}

-- Where `set_thread` returns 0 it has found the thread, and reading it finds the new value. A
-- security module that refuses does not answer 0.
set_thread-get_thread :
    (h : Host) (me : Thread) (pid n : ℤ) (ps : List Thread)
    → ltz (neg esrch) (h.nice_to_rlimit n) ≡ true
    → (set_thread h me pid n (neg esrch) ps).0 ≡ pos 0
    → get_thread h pid (neg esrch) (set_thread h me pid n (neg esrch) ps).1 ≡ h.nice_to_rlimit n
unfolding set_thread get_thread set_one_prio
set_thread-get_thread h me pid n [] large done = ground arith
set_thread-get_thread h me pid n (p ∷ ps) large done =
    ground (arith, set_thread-get_thread h me pid n ps large)

-- After a `setpriority` on one process that returned 0, `getpriority` by the same caller on that
-- process returns the value set, brought between -20 and 19, as the kernel states it in the terms
-- of RLIMIT_NICE, if such a value is larger than the error number that it starts from.
pub getpriority-setpriority :
    (h : Host) (me : Thread) (who niceval : ℤ) (ps : List Thread)
    → ltz (neg esrch) (h.nice_to_rlimit (clamp_nice niceval)) ≡ true
    → (setpriority h me (pos 0) who niceval ps).0 ≡ pos 0
    → getpriority h me (pos 0) who (setpriority h me (pos 0) who niceval ps).1
      ≡ h.nice_to_rlimit (clamp_nice niceval)
unfolding setpriority getpriority
getpriority-setpriority h me who niceval ps large done =
    set_thread-get_thread h me (or_own who me.pid) (clamp_nice niceval) ps large done
