-- ===== src/Usage.antt =====
-- What tasks have used, Kernel/kernel/sys.c: `getrusage` and `times`; with `umask` and `getcpu`.
pub mod Added
use so2_202003745_vd.Base.{
  ℕ, ◌+◌, ◌*◌, ◌%◌, Bool, true, ◌||◌, not, List, [], ◌∷◌, Option, none, some, ℤ, pos, negsuc, neg,
  ltb, ◌==ℤ◌, if◌then◌else◌, to_word, word, einval, efault,
}

-- Switches, faults and blocks: of a thread, of the threads of a process that have ended, or of the
-- children that were waited for. A result of `getrusage` has them too.
pub record Counts : Type 0 where
  pub nvcsw : ℕ
  pub nivcsw : ℕ
  pub min_flt : ℕ
  pub maj_flt : ℕ
  pub inblock : ℕ
  pub oublock : ℕ

-- `sig->nvcsw` and so on in `own`, `sig->cnvcsw` and so on in `children`; the threads that live
pub record SignalUsage : Type 0 where
  pub own : Counts
  pub children : Counts
  pub maxrss : ℕ
  pub cmaxrss : ℕ
  pub cutime : ℕ
  pub cstime : ℕ
  pub threads : List Counts

-- `task_cputime_adjusted` and `thread_group_cputime_adjusted`, each the user and the system time;
-- `setmax_mm_hiwater_rss` on the address space of the task, if it has one.
pub record UsageHost : Type 0 where
  pub task_cputime : ℕ × ℕ
  pub thread_group_cputime : ℕ × ℕ
  pub setmax_mm_hiwater_rss : Option (ℕ → ℕ)

pub record Rusage : Type 0 where
  pub counts : Counts
  pub ru_maxrss : ℕ
  -- in nanoseconds, before `ns_to_kernel_old_timeval`
  pub utime : ℕ
  pub stime : ℕ

-- RUSAGE_BOTH, RUSAGE_CHILDREN, RUSAGE_SELF and RUSAGE_THREAD
pub data Who : Type 0 where
  both children self thread : Who

abbrev pub no_counts : Counts
no_counts = record { nvcsw = 0; nivcsw = 0; min_flt = 0; maj_flt = 0; inblock = 0; oublock = 0 }

-- `r->ru_nvcsw += t->nvcsw` and so on; this is `accumulate_thread_rusage` for a thread
unfoldable pub accumulate_thread_rusage : Counts → Counts → Counts
accumulate_thread_rusage t r = record {
  nvcsw = (r.nvcsw + t.nvcsw) % word;
  nivcsw = (r.nivcsw + t.nivcsw) % word;
  min_flt = (r.min_flt + t.min_flt) % word;
  maj_flt = (r.maj_flt + t.maj_flt) % word;
  inblock = (r.inblock + t.inblock) % word;
  oublock = (r.oublock + t.oublock) % word;
}

-- `__for_each_thread(sig, t) accumulate_thread_rusage(t, r)`
unfoldable pub accumulate_threads : List Counts → Counts → Counts
accumulate_threads [] r = r
accumulate_threads (t ∷ rest) r = accumulate_threads rest (accumulate_thread_rusage t r)

-- The case of RUSAGE_SELF, from what the case before it left.
unfoldable pub self_counts : SignalUsage → Counts → Counts
self_counts sig r = accumulate_threads sig.threads (accumulate_thread_rusage sig.own r)

abbrev pub larger_rss : ℕ → ℕ → ℕ
larger_rss a b = if ltb a b then b else a

abbrev pub with_hiwater : UsageHost → ℕ → ℕ
with_hiwater h maxrss = elim h.setmax_mm_hiwater_rss [ none ↦ maxrss | some setmax ↦ setmax maxrss ]

-- `maxrss * (PAGE_SIZE / 1024)`
abbrev pub in_kilobytes : ℕ → ℕ
in_kilobytes maxrss = maxrss * 4 % word

-- `getrusage` for the current thread `p`.
unfoldable pub getrusage : UsageHost → Who → Counts → SignalUsage → Rusage
getrusage h thread p sig = record {
  counts = accumulate_thread_rusage p no_counts;
  ru_maxrss = in_kilobytes (with_hiwater h sig.maxrss);
  utime = h.task_cputime.0;
  stime = h.task_cputime.1;
}
getrusage h children p sig = record {
  counts = sig.children;
  ru_maxrss = in_kilobytes sig.cmaxrss;
  utime = sig.cutime;
  stime = sig.cstime;
}
getrusage h self p sig = record {
  counts = self_counts sig no_counts;
  ru_maxrss = in_kilobytes (with_hiwater h (larger_rss 0 sig.maxrss));
  utime = h.thread_group_cputime.0;
  stime = h.thread_group_cputime.1;
}
getrusage h both p sig = record {
  counts = self_counts sig sig.children;
  ru_maxrss = in_kilobytes (with_hiwater h (larger_rss sig.cmaxrss sig.maxrss));
  utime = (sig.cutime + h.thread_group_cputime.0) % word;
  stime = (sig.cstime + h.thread_group_cputime.1) % word;
}

-- What user space may ask for; RUSAGE_BOTH is the kernel's own.
abbrev pub who_of : ℤ → Option Who
who_of who =
    if who ==ℤ pos 0
    then some self
    else if who ==ℤ neg 1
    then some children
    else if who ==ℤ pos 1
    then some thread
    else none

-- The system call: the result, and what is written to user space, if it can be.
unfoldable pub sys_getrusage : UsageHost → ℤ → Bool → Counts → SignalUsage → ℤ × Option Rusage
sys_getrusage h who is_writable p sig = elim (who_of who) [
  | none ↦ (neg einval, none)
  | some w ↦ if is_writable then (pos 0, some (getrusage h w p sig)) else (neg efault, none)
]

-- `struct tms`
pub record Tms : Type 0 where
  pub tms_utime : ℕ
  pub tms_stime : ℕ
  pub tms_cutime : ℕ
  pub tms_cstime : ℕ

unfoldable pub do_sys_times : (ℕ → ℕ) → UsageHost → SignalUsage → Tms
do_sys_times nsec_to_clock_t h sig = record {
  tms_utime = nsec_to_clock_t h.thread_group_cputime.0;
  tms_stime = nsec_to_clock_t h.thread_group_cputime.1;
  tms_cutime = nsec_to_clock_t sig.cutime;
  tms_cstime = nsec_to_clock_t sig.cstime;
}

-- `times`, with the ticks since the start; `tbuf` is none for NULL, else whether it can be written.
unfoldable pub times : (ℕ → ℕ) → UsageHost → Option Bool → ℤ → SignalUsage → ℤ × Option Tms
times nsec_to_clock_t h none ticks sig = (ticks, none)
times nsec_to_clock_t h (some is_writable) ticks sig =
    if is_writable then (ticks, some (do_sys_times nsec_to_clock_t h sig)) else (neg efault, none)

-- `umask`, on `current->fs->umask`: the old one, and the new
unfoldable pub umask : ℤ → ℕ → ℤ × ℕ
umask mask old = (pos old, to_word mask % 512)

-- `getcpu`, with both pointers: whether each is given and can be written
unfoldable pub getcpu : Option Bool → Option Bool → ℤ
getcpu cpup nodep =
    let fails : Option Bool → Bool =
      λ p. elim p [ none ↦ not true | some is_writable ↦ not is_writable ] in
    if fails cpup || fails nodep then neg efault else pos 0
