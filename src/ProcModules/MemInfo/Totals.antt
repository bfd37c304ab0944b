-- ===== src/ProcModules/MemInfo/Totals.antt =====
-- The totals that the module prints.
use so2_202003745_vd.Base.{
  ℕ, ◌+◌, ◌*◌, ◌/◌, ◌%◌, ◌^◌, ◌≡◌, ◌≤◌, ◌<◌, List, [], ◌∷◌, Option, none, some, arith, word,
}
use so2_202003745_vd.ProcModules.MemInfo.{Pages, sum_memory, meminfo_show}

-- all the pages mapped, and all those resident
abbrev pub mapped : List (Option Pages) → ℕ
mapped [] = 0
mapped (none ∷ rest) = mapped rest
mapped (some mm ∷ rest) = mm.total_vm + mapped rest

abbrev pub resident : List (Option Pages) → ℕ
resident [] = 0
resident (none ∷ rest) = resident rest
resident (some mm ∷ rest) = mm.rss + resident rest

-- No process has more pages resident than mapped.
abbrev pub IsResident : List (Option Pages) → Type 0
IsResident [] = Unit {0}
IsResident (none ∷ rest) = IsResident rest
IsResident (some mm ∷ rest) = (mm.rss ≤ mm.total_vm) × IsResident rest

resident-le-mapped : (l : List (Option Pages)) → IsResident l → resident l ≤ mapped l
resident-le-mapped [] h = omega arith
resident-le-mapped (none ∷ rest) h = resident-le-mapped rest h
resident-le-mapped (some mm ∷ rest) h = omega (arith, resident-le-mapped rest h.1)

sum_memory-pages :
    (l : List (Option Pages)) (reserved committed : ℕ)
    → reserved + 4 * mapped l < word
    → committed + 4 * resident l < word
    → ((sum_memory l (reserved, committed)).0 ≡ reserved + 4 * mapped l)
      × ((sum_memory l (reserved, committed)).1 ≡ committed + 4 * resident l)
unfolding sum_memory
sum_memory-pages [] reserved committed hr hc = omega arith
sum_memory-pages (none ∷ rest) reserved committed hr hc =
    sum_memory-pages rest reserved committed hr hc
sum_memory-pages (some mm ∷ rest) reserved committed hr hc =
    let r = (reserved + mm.total_vm * 2 ^ 2 % word) % word in
    let c = (committed + mm.rss * 2 ^ 2 % word) % word in
    let r_exact : r ≡ reserved + 4 * mm.total_vm = omega arith in
    let c_exact : c ≡ committed + 4 * mm.rss = omega arith in
    omega (arith, sum_memory-pages rest r c (omega arith) (omega arith))

-- Where all mapped memory in KiB fits in 64 bits and no process has more resident than mapped, the
-- module prints the mapped and the resident pages of all processes together, at 4 KiB a page, in
-- MiB rounded down, and the committed memory printed is at most the reserved.
pub meminfo_show-pages :
    (l : List (Option Pages))
    → IsResident l
    → 4 * mapped l < word
    → ((meminfo_show l).0 ≡ 4 * mapped l / 1024)
      × ((meminfo_show l).1 ≡ 4 * resident l / 1024)
      × ((meminfo_show l).1 ≤ (meminfo_show l).0)
unfolding meminfo_show
meminfo_show-pages l h fits =
    let le = resident-le-mapped l h in
    omega (arith, sum_memory-pages l 0 0 (omega arith) (omega arith))
