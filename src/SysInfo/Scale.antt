-- ===== src/SysInfo/Scale.antt =====
-- What the scaling of the memory sizes does to them.
use so2_202003745_vd.Base.{
  ℕ, zero, suc, ◌+◌, ◌*◌, ◌/◌, ◌%◌, ◌^◌, ◌≡◌, ◌≢◌, ◌≤◌, ◌<◌, inl, inr, refl, Bool-cases, ltb, ◌||◌,
  arith, word,
}
use native.Mathlib.Nat.{pow-suc, one-le-pow, pow-le-pow_right, mod-eq_of_lt}
use native.Mathlib.Decide.{dec_lt}
use so2_202003745_vd.SysInfo.{
  SysInfo, Scaling, out_of_fuel, overflow, bits, count_bits, in_bytes, rescale, normalise,
  scale_fuel, shl,
}

-- With as much fuel as the unit has binary digits the loop ends.
pub count_bits-ends :
    (fuel mem_unit mem_total bitcount : ℕ)
    → 0 < mem_unit
    → mem_unit < 2 ^ fuel
    → count_bits fuel mem_unit mem_total bitcount ≢ out_of_fuel
unfolding count_bits
count_bits-ends zero mem_unit mem_total bitcount pos h = absurd (omega arith)
count_bits-ends (suc fuel) mem_unit mem_total bitcount pos h =
    let split : 2 ^ suc fuel ≡ 2 ^ fuel * 2 = pow-suc 2 fuel in
    ground (arith, count_bits-ends fuel (mem_unit / 2) (mem_total * 2 % word) (bitcount + 1))

-- `n` counts the binary digits of the unit after the first, on top of `bitcount`, and the total
-- shifted as far fits in 64 bits.
abbrev pub Counts : ℕ → ℕ → ℕ → ℕ → Type 0
Counts mem_unit mem_total bitcount n =
    (d : ℕ) × (n ≡ bitcount + d)
    × (2 ^ d ≤ mem_unit)
    × (mem_unit < 2 ^ d * 2)
    × (mem_total * 2 ^ d < word)

Counts-halve :
    (mem_unit mem_total bitcount n : ℕ)
    → mem_total * 2 % word ≡ mem_total * 2
    → Counts (mem_unit / 2) (mem_total * 2 % word) (bitcount + 1) n
    → Counts mem_unit mem_total bitcount n
Counts-halve mem_unit mem_total bitcount n exact (d, count, low, high, total) =
    let split : 2 ^ suc d ≡ 2 ^ d * 2 = pow-suc 2 d in
    let total' : mem_total * 2 * 2 ^ d < word = rw exact at total in
    (suc d, omega arith, omega arith, omega arith, rw split (omega arith))

-- The `bitcount` of a run to the end is the binary logarithm of the unit, rounded down, and the
-- total in bytes fits in 64 bits.
pub count_bits-bits :
    (fuel mem_unit mem_total bitcount n : ℕ)
    → 0 < mem_unit
    → mem_total < word
    → count_bits fuel mem_unit mem_total bitcount ≡ bits n
    → Counts mem_unit mem_total bitcount n
unfolding count_bits
count_bits-bits zero mem_unit mem_total bitcount n pos fits e = cc
count_bits-bits (suc fuel) mem_unit mem_total bitcount n pos fits e =
    elim (Bool-cases (ltb 1 mem_unit)) [
      | inl more ↦ elim (Bool-cases (ltb (mem_total * 2 % word) mem_total)) [
        | inl wraps ↦ absurd (ground arith)
        | inr free ↦ Counts-halve mem_unit mem_total bitcount n (ground arith) (
            count_bits-bits fuel (mem_unit / 2) (mem_total * 2 % word) (bitcount + 1) n
              (ground arith) (omega arith) (ground arith))
      ]
      | inr last ↦ (0, ground arith, omega arith, ground arith, omega arith)
    ]

pow2_suc-le : (i j : ℕ) → i < j → 2 ^ i * 2 ≤ 2 ^ j
pow2_suc-le i j h =
    let split : 2 ^ suc i ≡ 2 ^ i * 2 = pow-suc 2 i in
    rw (← split) (pow-le-pow_right (omega arith) h)

pow2_log : (d k : ℕ) → 2 ^ d ≤ 2 ^ k → 2 ^ k < 2 ^ d * 2 → d ≡ k
pow2_log d k low high = elim (dec_lt d k) [
  | yes below ↦ absurd (omega (arith, pow2_suc-le d k below))
  | no not_below ↦ elim (dec_lt k d) [
    | yes above ↦ absurd (omega (arith, pow2_suc-le k d above, one-le-pow k 2 (omega arith)))
    | no not_above ↦ omega arith
  ]
]

-- A shift of a part of what fits does not wrap.
shl_exact : (x total n : ℕ) → x ≤ total → total * 2 ^ n < word → shl x n ≡ x * 2 ^ n
shl_exact x total n le fits =
    let part : x * 2 ^ n ≤ total * 2 ^ n = grind arith in mod-eq_of_lt (omega arith)

-- The two structs state the same number of bytes of RAM and of swap, in total and free.
abbrev pub SameBytes : SysInfo → SysInfo → Type 0
SameBytes a b =
    (a.totalram * a.mem_unit ≡ b.totalram * b.mem_unit)
    × (a.totalswap * a.mem_unit ≡ b.totalswap * b.mem_unit)
    × (a.freeram * a.mem_unit ≡ b.freeram * b.mem_unit)
    × (a.freeswap * a.mem_unit ≡ b.freeswap * b.mem_unit)

rescale-SameBytes :
    (s : Scaling) (info : SysInfo) (k : ℕ)
    → info.mem_unit ≡ 2 ^ k
    → info.freeram ≤ info.totalram
    → info.freeswap ≤ info.totalswap
    → ((n : ℕ) → s ≡ bits n → Counts info.mem_unit (info.totalram + info.totalswap) 0 n)
    → SameBytes (rescale s info) info
unfolding rescale in_bytes
rescale-SameBytes out_of_fuel info k unit fr fs counts = (refl, refl, refl, refl)
rescale-SameBytes overflow info k unit fr fs counts = (refl, refl, refl, refl)
rescale-SameBytes (bits n) info k unit fr fs counts =
    let (d, count, low, high, total) = counts n refl in
    let d_is_k : d ≡ k = pow2_log d k (rw unit at low) (rw unit at high) in
    let n_is_k : n ≡ k = omega arith in
    let fits : (info.totalram + info.totalswap) * 2 ^ n < word = rw (n_is_k, ← d_is_k) total in
    let unit' : info.mem_unit ≡ 2 ^ n = rw n_is_k unit in
    let scaled = λ (x : ℕ) (le : x ≤ info.totalram + info.totalswap).
      shl_exact x (info.totalram + info.totalswap) n le fits in
    (
      rw (scaled info.totalram (omega arith), unit') (omega arith),
      rw (scaled info.totalswap (omega arith), unit') (omega arith),
      rw (scaled info.freeram (omega arith), unit') (omega arith),
      rw (scaled info.freeswap (omega arith), unit') (omega arith),
    )

-- `do_sysinfo` normalises without loss: for a unit that is a power of two, as the kernel's is, and
-- free amounts within the totals, the struct states the same number of bytes of RAM and of swap,
-- in total and free, as before.
pub normalise-SameBytes :
    (info : SysInfo) (k : ℕ)
    → info.mem_unit ≡ 2 ^ k
    → info.totalram < word
    → info.totalswap < word
    → info.freeram ≤ info.totalram
    → info.freeswap ≤ info.totalswap
    → SameBytes (normalise info) info
unfolding normalise
normalise-SameBytes info k unit ram swap fr fs =
    elim (Bool-cases (ltb total info.totalram || ltb total info.totalswap)) [
      | inl wraps ↦ rw wraps (refl, refl, refl, refl)
      | inr sums ↦
          let exact : total ≡ info.totalram + info.totalswap = ground arith in
          rw sums (
            rescale-SameBytes (count_bits scale_fuel info.mem_unit total 0) info k unit fr fs λ n e.
              rw (← exact) (
                count_bits-bits scale_fuel info.mem_unit total 0 n
                  (rw unit (one-le-pow k 2 (omega arith))) (omega arith) e))
    ]
  where
    total : ℕ
    total = (info.totalram + info.totalswap) % word

-- The loop over `mem_unit` in `do_sysinfo` always ends: for a unit of 32 bits the 33 rounds that the model allows suffice.
pub normalise_ends :
    (mem_unit mem_total : ℕ)
    → 0 < mem_unit
    → mem_unit < 2 ^ 32
    → count_bits scale_fuel mem_unit mem_total 0 ≢ out_of_fuel
normalise_ends mem_unit mem_total p h =
    count_bits-ends scale_fuel mem_unit mem_total 0 p (omega arith)
