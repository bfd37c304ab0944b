-- ===== src/Files/WriteLimits/AfterPrlimit.antt =====
-- A limit on file sizes that `do_prlimit` sets is the one that the next write meets.
use so2_202003745_vd.Base.{
  ℕ, ◌+◌, ◌^◌, ◌≤◌, ◌<◌, ◌≡◌, ◌⊎◌, some, ℤ, pos, neg, to_word, ok, arith, ap, ◌∙◌, efbig,
}
use so2_202003745_vd.Task.{Task}
use so2_202003745_vd.Rlimit.{Rlimit, Machine, Host, do_prlimit}
use so2_202003745_vd.Rlimit.Laws.{do_prlimit-ok}
use so2_202003745_vd.Files.{File}
use so2_202003745_vd.Files.WriteLimits.{
  Target, Request, fsize_limit, rlimit_fsize, max_size, check_fsize, generic_write_check_limits,
}
use so2_202003745_vd.Files.WriteLimits.Bounds.{request}

pub fsize_limit-do_prlimit :
    (host : Host) (tsk : Task) (new old : Rlimit) (m : Machine) (t : Target)
    → (do_prlimit host tsk rlimit_fsize (some new) m).0 ≡ ok old
    → t.machine ≡ (do_prlimit host tsk rlimit_fsize (some new) m).1
    → t.signal ≡ tsk.signal
    → fsize_limit t ≡ new.rlim_cur
fsize_limit-do_prlimit host tsk new old m t done machine signal =
    let (_, written, _) = do_prlimit-ok host tsk rlimit_fsize new m done in
    ap (λ r. (t.machine.rlim r rlimit_fsize).rlim_cur) signal
    ∙ ap (λ k. (k.rlim tsk.signal rlimit_fsize).rlim_cur) machine
    ∙ ap (λ r. r.rlim_cur) written

-- Once `do_prlimit` has set the limit on file sizes to `new`, whose soft limit is below 2 ^ 63, a
-- check of a write of `count` bytes at `p`, in a file that may grow to `max` bytes, either returns 0,
-- where `p` is below the soft limit and below `max`, for a count that ends within both, or returns
-- -EFBIG, where `p` has reached one of them. A SIGXFSZ is sent exactly where `p` has reached the soft
-- limit.
pub do_prlimit-generic_write_check_limits :
    (host : Host) (tsk : Task) (new old : Rlimit) (m : Machine) (t : Target) (file : File)
    → (p count max sent : ℕ) (ret : ℤ) (r : Request)
    → (do_prlimit host tsk rlimit_fsize (some new) m).0 ≡ ok old
    → t.machine ≡ (do_prlimit host tsk rlimit_fsize (some new) m).1
    → t.signal ≡ tsk.signal
    → new.rlim_cur < 2 ^ 63
    → p < 2 ^ 63
    → count < 2 ^ 63
    → max < 2 ^ 63
    → max_size t file ≡ pos max
    → generic_write_check_limits t file (pos p) (request count sent) ≡ (ret, r)
    → ((ret ≡ pos 0)
        × (p < new.rlim_cur)
        × (p < max)
        × (p + to_word r.count ≤ new.rlim_cur)
        × (p + to_word r.count ≤ max)
        × (r.sigxfsz ≡ sent))
      ⊎ ((ret ≡ neg efbig) × (new.rlim_cur ≤ p) × (r.sigxfsz ≡ sent + 1))
      ⊎ ((ret ≡ neg efbig) × (p < new.rlim_cur) × (max ≤ p) × (r.sigxfsz ≡ sent))
unfolding generic_write_check_limits check_fsize
do_prlimit-generic_write_check_limits host tsk new old m t file p count max sent ret r done machine
      signal hn hp hc hm size run =
    let set = fsize_limit-do_prlimit host tsk new old m t done machine signal in ground arith
