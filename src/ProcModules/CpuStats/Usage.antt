-- ===== src/ProcModules/CpuStats/Usage.antt =====
-- The percentage that the module reports.
use so2_202003745_vd.Base.{ℕ, ◌-◌, ◌*◌, ◌/◌, ◌^◌, ◌≡◌, ◌≤◌, ◌<◌, ◌⊎◌, pos, arith, word}
use native.Mathlib.Nat.{div-le_of_le-mul, mul_comm, mod-eq_of_lt}
use so2_202003745_vd.ProcModules.CpuStats.{
  Reading, Prev, failed, get_cpu_idle_time, get_cpu_total_time, usage_of, to_int, sub64,
  calculate_cpu_usage, error, show_cpu_stats,
}

to_int_small : (q : ℕ) → q < 2 ^ 31 → to_int q ≡ pos q
unfolding to_int
to_int_small q h = ground arith

sub64_exact : (a b : ℕ) → b ≤ a → a < word → sub64 a b ≡ a - b
sub64_exact a b h k = omega arith

percent-le : (part total : ℕ) → 0 < total → part ≤ total → 100 * part / total ≤ 100
percent-le part total h k =
    let bound : 100 * part ≤ 100 * total = omega arith in
    div-le_of_le-mul total (rw (mul_comm total 100) bound)

-- For two readings of the processor times that have grown, the idle one by no more than the total one, and by less than what
-- 64 bits hold a hundred times of, the result is the share of the time that was not idle, in
-- percent, rounded down; it is at most 100, and the times are kept for the next call.
pub usage_of-percent :
    (idle total : ℕ) (p : Prev)
    → idle < failed
    → total < failed
    → p.prev_idle_time ≤ idle
    → p.prev_total_time < total
    → idle - p.prev_idle_time ≤ total - p.prev_total_time
    → 100 * (total - p.prev_total_time) < word
    → let dt = total - p.prev_total_time in
      let di = idle - p.prev_idle_time in
      (usage_of idle total p
        ≡ (pos (100 * (dt - di) / dt), record { prev_idle_time = idle; prev_total_time = total }))
      × (100 * (dt - di) / dt ≤ 100)
unfolding usage_of
usage_of-percent idle total p hi ht gi gt le fit =
    let dt : ℕ = total - p.prev_total_time in
    let di : ℕ = idle - p.prev_idle_time in
    let small = percent-le (dt - di) dt (omega arith) (omega arith) in
    (
      rw
          (
            sub64_exact total p.prev_total_time (omega arith) (omega arith),
            sub64_exact idle p.prev_idle_time gi (omega arith),
            sub64_exact dt di le (omega arith),
            mod-eq_of_lt (let fits : 100 * (dt - di) < word = omega arith in fits),
            to_int_small (100 * (dt - di) / dt) (omega arith),
          )
          (ground arith),
      small,
    )

-- A reading that fails, of either time, makes the module print Error and keep its two times.
pub show_cpu_stats_error :
    (first second : Reading) (p : Prev)
    → (get_cpu_idle_time first ≡ failed) ⊎ (get_cpu_total_time second ≡ failed)
    → show_cpu_stats first second p ≡ (error, p)
unfolding show_cpu_stats calculate_cpu_usage usage_of
show_cpu_stats_error first second p h = ground arith
