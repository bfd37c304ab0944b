-- ===== src/ProcModules/MemStats/Sizes.antt =====
-- The sizes that the module prints.
use so2_202003745_vd.Base.{ℕ, ◌*◌, ◌/◌, ◌≡◌, ◌≤◌, ◌<◌, arith, word}
use native.Mathlib.Nat.{mod-eq_of_lt}
use so2_202003745_vd.SysInfo.{SysInfo}
use so2_202003745_vd.ProcModules.MemStats.{show_mem_stats, in_kb}

div_mono : (a b : ℕ) → a ≤ b → a / 1024 ≤ b / 1024
div_mono a b h = omega arith

in_kb_exact :
    (si : SysInfo) (x total : ℕ)
    → x ≤ total
    → total * si.mem_unit < word
    → in_kb si x ≡ x * si.mem_unit / 1024
in_kb_exact si x total le fits =
    let part : x * si.mem_unit ≤ total * si.mem_unit = grind arith in
    rw (mod-eq_of_lt (let small : x * si.mem_unit < word = omega arith in small))

in_kb-le :
    (si : SysInfo) (x total : ℕ)
    → x ≤ total
    → total * si.mem_unit < word
    → in_kb si x ≤ in_kb si total
in_kb-le si x total le fits =
    let part : x * si.mem_unit ≤ total * si.mem_unit = grind arith in omega arith

-- Where the memory in bytes fits in 64 bits, each number printed is the exact size in KiB, rounded
-- down, and the free and buffer sizes printed are at most the totals that they belong to.
pub show_mem_stats_exact :
    (si : SysInfo)
    → si.freeram ≤ si.totalram
    → si.bufferram ≤ si.totalram
    → si.freeswap ≤ si.totalswap
    → si.totalram * si.mem_unit < word
    → si.totalswap * si.mem_unit < word
    → let r = show_mem_stats si in
      (r.total_kb ≡ si.totalram * si.mem_unit / 1024)
      × (r.free_kb ≡ si.freeram * si.mem_unit / 1024)
      × (r.buffers_kb ≡ si.bufferram * si.mem_unit / 1024)
      × (r.swap_total_kb ≡ si.totalswap * si.mem_unit / 1024)
      × (r.swap_free_kb ≡ si.freeswap * si.mem_unit / 1024)
      × (r.free_kb ≤ r.total_kb)
      × (r.buffers_kb ≤ r.total_kb)
      × (r.swap_free_kb ≤ r.swap_total_kb)
unfolding show_mem_stats
show_mem_stats_exact si free buffers swap ram_fits swap_fits = (
  in_kb_exact si si.totalram si.totalram (omega arith) ram_fits,
  in_kb_exact si si.freeram si.totalram free ram_fits,
  in_kb_exact si si.bufferram si.totalram buffers ram_fits,
  in_kb_exact si si.totalswap si.totalswap (omega arith) swap_fits,
  in_kb_exact si si.freeswap si.totalswap swap swap_fits,
  in_kb-le si si.freeram si.totalram free ram_fits,
  in_kb-le si si.bufferram si.totalram buffers ram_fits,
  in_kb-le si si.freeswap si.totalswap swap swap_fits,
)
