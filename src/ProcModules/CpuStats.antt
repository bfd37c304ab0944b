-- ===== src/ProcModules/CpuStats.antt =====
-- The module Modulos/cpu_stats/cpu_stats.c.
pub mod Usage
use so2_202003745_vd.Base.{
  ℕ, ◌+◌, ◌-◌, ◌*◌, ◌/◌, ◌%◌, ◌^◌, Option, none, some, Bool, true, false, ◌||◌, not, ℤ, pos, negsuc,
  neg, ltb, ◌==◌, is_nonpos, is_neg, if◌then◌else◌, word,
}

-- The eight numbers of the line `cpu` of /proc/stat.
pub record CpuTimes : Type 0 where
  pub user : ℕ
  pub nice : ℕ
  pub system : ℕ
  pub idle : ℕ
  pub iowait : ℕ
  pub irq : ℕ
  pub softirq : ℕ
  pub steal : ℕ

-- One reading of /proc/stat: whether the file opens, what `kernel_read` returns, and what `sscanf`
-- finds, if it finds all that the format asks for.
pub record Reading : Type 0 where
  pub opens : Bool
  pub bytes_read : ℤ
  pub scanned : Option CpuTimes

-- `return -1;` from a function of type unsigned long long
abbrev pub failed : ℕ
failed = word - 1

unfoldable pub get_cpu_idle_time : Reading → ℕ
get_cpu_idle_time r =
    if not r.opens || is_nonpos r.bytes_read
    then failed
    else elim r.scanned [ none ↦ failed | some t ↦ (t.idle + t.iowait) % word ]

unfoldable pub get_cpu_total_time : Reading → ℕ
get_cpu_total_time r = if not r.opens || is_nonpos r.bytes_read then failed else elim r.scanned [
  | none ↦ failed
  | some t ↦ (t.user + t.nice + t.system + t.idle + t.iowait + t.irq + t.softirq + t.steal) % word
]

-- The two static variables.
pub record Prev : Type 0 where
  pub prev_idle_time : ℕ
  pub prev_total_time : ℕ

-- conversion to int
unfoldable pub to_int : ℕ → ℤ
to_int x = let low = x % 2 ^ 32 in if ltb low (2 ^ 31) then pos low else negsuc (2 ^ 32 - low - 1)

-- `a - b` in 64 bits
abbrev pub sub64 : ℕ → ℕ → ℕ
sub64 a b = (a + word - b) % word

-- `calculate_cpu_usage`, from the two times
unfoldable pub usage_of : ℕ → ℕ → Prev → ℤ × Prev
usage_of idle_time total_time p =
    if (idle_time == failed) || (total_time == failed)
    then (neg 1, p)
    else let delta_idle = sub64 idle_time p.prev_idle_time in
      let delta_total = sub64 total_time p.prev_total_time in
      (
        if ltb 0 delta_total
            then to_int (100 * sub64 delta_total delta_idle % word / delta_total)
            else pos 0,
        record { prev_idle_time = idle_time; prev_total_time = total_time },
      )

-- `calculate_cpu_usage`; the file is read twice
unfoldable pub calculate_cpu_usage : Reading → Reading → Prev → ℤ × Prev
calculate_cpu_usage first second p =
    usage_of (get_cpu_idle_time first) (get_cpu_total_time second) p

-- What the module prints: a percentage, or the word Error.
pub data Report : Type 0 where
  percent : ℤ → Report
  error : Report

unfoldable pub show_cpu_stats : Reading → Reading → Prev → Report × Prev
show_cpu_stats first second p =
    let (cpu_usage, p') = calculate_cpu_usage first second p in
    (if is_neg cpu_usage then error else percent cpu_usage, p')
