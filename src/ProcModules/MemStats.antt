-- ===== src/ProcModules/MemStats.antt =====
-- The module Modulos/memory_stats/memory_stats.c.
pub mod Sizes
use so2_202003745_vd.Base.{ℕ, ◌*◌, ◌/◌, ◌%◌, word}
use so2_202003745_vd.SysInfo.{SysInfo}

-- the five numbers that are printed
pub record Report : Type 0 where
  pub total_kb : ℕ
  pub free_kb : ℕ
  pub buffers_kb : ℕ
  pub swap_total_kb : ℕ
  pub swap_free_kb : ℕ

-- `x * si.mem_unit / 1024` in unsigned longs
abbrev pub in_kb : SysInfo → ℕ → ℕ
in_kb si x = x * si.mem_unit % word / 1024

-- `show_mem_stats`, from what `si_meminfo` fills in
unfoldable pub show_mem_stats : SysInfo → Report
show_mem_stats si = record {
  total_kb = in_kb si si.totalram;
  free_kb = in_kb si si.freeram;
  buffers_kb = in_kb si si.bufferram;
  swap_total_kb = in_kb si si.totalswap;
  swap_free_kb = in_kb si si.freeswap;
}
