-- ===== src/Usage/Added.antt =====
-- How the results for a process and its children add up, and that a mask can be put back.
use so2_202003745_vd.Base.{ℕ, ◌+◌, ◌<◌, ◌%◌, ◌≡◌, List, [], ◌∷◌, ℤ, pos, arith, word, refl, ap, ◌∙◌}
use so2_202003745_vd.Usage.{
  Counts, SignalUsage, UsageHost, no_counts, accumulate_thread_rusage, accumulate_threads,
  self_counts, getrusage, both, children, self, umask,
}

add_swap : (r b a : ℕ) → ((r + b) % word + a) % word ≡ (r + (b + a) % word) % word
add_swap r b a = omega arith

add_twice : (r a : ℕ) → (r + a) % word ≡ (r + (0 + a) % word) % word
add_twice r a = omega arith

accumulate_swap :
    (a b r : Counts)
    → accumulate_thread_rusage a (accumulate_thread_rusage b r)
      ≡ accumulate_thread_rusage (accumulate_thread_rusage a b) r
unfolding accumulate_thread_rusage
accumulate_swap a b r = λ i. record {
  nvcsw = add_swap r.nvcsw b.nvcsw a.nvcsw i;
  nivcsw = add_swap r.nivcsw b.nivcsw a.nivcsw i;
  min_flt = add_swap r.min_flt b.min_flt a.min_flt i;
  maj_flt = add_swap r.maj_flt b.maj_flt a.maj_flt i;
  inblock = add_swap r.inblock b.inblock a.inblock i;
  oublock = add_swap r.oublock b.oublock a.oublock i;
}

accumulate_from_none :
    (a r : Counts)
    → accumulate_thread_rusage a r
      ≡ accumulate_thread_rusage (accumulate_thread_rusage a no_counts) r
unfolding accumulate_thread_rusage
accumulate_from_none a r = λ i. record {
  nvcsw = add_twice r.nvcsw a.nvcsw i;
  nivcsw = add_twice r.nivcsw a.nivcsw i;
  min_flt = add_twice r.min_flt a.min_flt i;
  maj_flt = add_twice r.maj_flt a.maj_flt i;
  inblock = add_twice r.inblock a.inblock i;
  oublock = add_twice r.oublock a.oublock i;
}

accumulate_threads-from :
    (l : List Counts) (x r : Counts)
    → accumulate_threads l (accumulate_thread_rusage x r)
      ≡ accumulate_thread_rusage (accumulate_threads l x) r
unfolding accumulate_threads
accumulate_threads-from [] x r = refl
accumulate_threads-from (t ∷ rest) x r =
    ap (accumulate_threads rest) (accumulate_swap t x r)
    ∙ accumulate_threads-from rest (accumulate_thread_rusage t x) r

-- What `getrusage` tells the kernel of a process together with its children is the sum of what it tells
-- of the process and of what it tells of the children, modulo 2 ^ 64: of the switches, the faults,
-- the blocks and both times.
pub getrusage-both :
    (h : UsageHost) (p : Counts) (sig : SignalUsage)
    → let a = getrusage h self p sig in
      let b = getrusage h children p sig in
      ((getrusage h both p sig).counts ≡ accumulate_thread_rusage a.counts b.counts)
      × ((getrusage h both p sig).utime ≡ (b.utime + a.utime) % word)
      × ((getrusage h both p sig).stime ≡ (b.stime + a.stime) % word)
unfolding getrusage self_counts
getrusage-both h p sig = (
  ap (accumulate_threads sig.threads) (accumulate_from_none sig.own sig.children)
      ∙ accumulate_threads-from sig.threads (accumulate_thread_rusage sig.own no_counts)
          sig.children,
  refl,
  refl,
)

-- `umask` with the mask that an earlier `umask` returned puts that mask back.
pub umask-umask :
    (mask : ℤ) (old : ℕ)
    → old < 512
    → let (former, new) = umask mask old in umask former new ≡ (pos new, old)
unfolding umask
umask-umask mask old h = ground arith
