-- ===== src/Base/Signed.antt =====
-- Signed 64-bit arithmetic, which wraps in the kernel (-fno-strict-overflow), orders of signed
-- numbers, and tests of bits.
use Prim.Native.Nat.{ℕ, ◌+◌, ◌-◌, ◌%◌, ◌^◌, bit_and}
use mathlib.Core.Bool.{Bool, true, false, not}
use so2_202003745_vd.Base.Tests.{ltb, ◌==◌, if◌then◌else◌}
use so2_202003745_vd.Base.Int.{ℤ, pos, negsuc}

-- `a < b`
abbrev pub ltz : ℤ → ℤ → Bool
ltz (pos a) (pos b) = ltb a b
ltz (pos a) (negsuc b) = false
ltz (negsuc a) (pos b) = true
ltz (negsuc a) (negsuc b) = ltb b a

-- `a <= b`
abbrev pub lez : ℤ → ℤ → Bool
lez a b = not (ltz b a)

-- the smaller of two signed numbers
abbrev pub minz : ℤ → ℤ → ℤ
minz a b = if ltz b a then b else a

-- conversion to a 64-bit unsigned type
abbrev pub to_word : ℤ → ℕ
to_word (pos n) = n % 2 ^ 64
to_word (negsuc n) = 2 ^ 64 - 1 - n % 2 ^ 64

-- the signed number that a 64-bit pattern stands for
abbrev pub signed64 : ℕ → ℤ
signed64 w = if ltb w (2 ^ 63) then pos w else negsuc (2 ^ 64 - w - 1)

-- `a + b` and `a - b` in 64 bits
abbrev pub add64 : ℤ → ℤ → ℤ
add64 a b = signed64 ((to_word a + to_word b) % 2 ^ 64)

abbrev pub sub64 : ℤ → ℤ → ℤ
sub64 a b = signed64 ((to_word a + (2 ^ 64 - to_word b)) % 2 ^ 64)

-- the largest `loff_t`, OFFSET_MAX
abbrev pub offset_max : ℕ
offset_max = 2 ^ 63 - 1

-- `flags & mask` as a truth value
abbrev pub has : ℕ → ℕ → Bool
has flags mask = not (bit_and flags mask == 0)
