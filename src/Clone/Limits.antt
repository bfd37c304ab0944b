-- ===== src/Clone/Limits.antt =====
-- How many threads there may be: `set_max_threads` and `sysctl_max_threads`, Kernel/kernel/fork.c.
use so2_202003745_vd.Base.{
  ℕ, ◌*◌, ◌/◌, ◌^◌, ◌%◌, ◌≤◌, ◌≡◌, ◌⊎◌, Bool, not, ◌||◌, ℤ, pos, is_zero, ltb, leb, if◌then◌else◌,
  arith,
}

-- MIN_THREADS and MAX_THREADS, which is FUTEX_TID_MASK
abbrev pub min_threads : ℕ
min_threads = 20

abbrev pub max_threads_mask : ℕ
max_threads_mask = 0x3fff_ffff

-- PAGE_SIZE and THREAD_SIZE
abbrev pub page_bytes : ℕ
page_bytes = 4096

abbrev pub thread_bytes : ℕ
thread_bytes = 16384

-- `fls64(nr_pages) + fls64(PAGE_SIZE) > 64`: the second is 13, so the first is more than 51
abbrev pub has_too_many_pages : ℕ → Bool
has_too_many_pages nr_pages = leb (2 ^ 51) nr_pages

-- `threads`, by the memory there is
unfoldable pub threads_by_memory : ℕ → ℕ
threads_by_memory nr_pages =
    if has_too_many_pages nr_pages
    then max_threads_mask
    else nr_pages * page_bytes % 2 ^ 64 / (thread_bytes * 8)

abbrev pub clamp_threads : ℕ → ℕ
clamp_threads threads =
    if ltb threads min_threads
    then min_threads
    else if ltb max_threads_mask threads
    then max_threads_mask
    else threads

-- `max_threads` after the call
unfoldable pub set_max_threads : ℕ → ℕ → ℕ
set_max_threads nr_pages suggested =
    let threads = threads_by_memory nr_pages in
    clamp_threads (if ltb suggested threads then suggested else threads)

-- `sysctl_max_threads`, with what `proc_dointvec_minmax` answers: an error or 0, and the number that it
-- leaves; the result and `max_threads` then
unfoldable pub sysctl_max_threads : ℤ × ℕ → Bool → ℕ → ℤ × ℕ
sysctl_max_threads (ret, threads) is_write max_threads =
    if not (is_zero ret) || not is_write then (ret, max_threads) else (pos 0, threads)

-- Whatever the memory and the number suggested, `set_max_threads` leaves a limit from 20 threads to
-- MAX_THREADS; where that is more than 20 it is at most the number suggested, and the stacks of as
-- many threads take at most an eighth of the memory, if the memory has fewer than 2^51 pages.
pub set_max_threads_bounds :
    (nr_pages suggested : ℕ)
    → (min_threads ≤ set_max_threads nr_pages suggested)
      × (set_max_threads nr_pages suggested ≤ max_threads_mask)
      × ((set_max_threads nr_pages suggested ≡ min_threads)
          ⊎ ((set_max_threads nr_pages suggested ≤ suggested)
              × ((2 ^ 51 ≤ nr_pages)
                  ⊎ (set_max_threads nr_pages suggested * thread_bytes * 8
                      ≤ nr_pages * page_bytes))))
unfolding set_max_threads threads_by_memory
set_max_threads_bounds nr_pages suggested = ground arith
