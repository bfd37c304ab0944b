-- ===== src/Files/Vectors/Agreement.antt =====
-- The positional calls on several buffers beside those at the file's position.
use Prim.Native.Nat.{bit_or-bitwise}
use so2_202003745_vd.Base.{
  ◌≡◌, ◌≤◌, ◌^◌, ◌<◌, ◌*◌, ◌%◌, ◌+◌, ◌-◌, ◌⊎◌, ℕ, List, [], ◌∷◌, Option, none, some, true, false, ℤ,
  pos, negsuc, neg, is_neg, refl, arith, bit_or, signed64, inl, inr, Result-cases, Option-cases,
  einval,
}
use so2_202003745_vd.Files.Transfer.{World, Method, Outcome, assign, record_access, bytes}
use so2_202003745_vd.Files.Transfer.Positional.{at}
use so2_202003745_vd.Files.Transfer.Vector.{loop, met_buffers, do_loop_readv_writev}
use so2_202003745_vd.Files.Area.{Direction, reading, rw_verify_area}
use so2_202003745_vd.Files.Vectors.{
  Vectored, do_readv, do_preadv, vfs_readv, move_buffers, do_iter_readv_writev,
}
use so2_202003745_vd.Files.Vectors.Calls.{sys_preadv2, pos_from_hilo}

-- An outcome with the file of its world at another position.
abbrev at_too : ℤ → Outcome → Outcome
at_too q (ret, ppos, w) = (ret, ppos, at q w)

-- The file of an outcome.
abbrev KeepsFile : World → Outcome → Type 0
KeepsFile w (ret, ppos, w') = w'.file ≡ w.file

-- An outcome of a call at another position is that of the call here, and both keep the file.
abbrev IsSame : ℤ → World → Outcome → Outcome → Type 0
IsSame q w there here = (there ≡ at_too q here) × KeepsFile w here

loop_step-at :
    (d : Direction) (f : Method) (len : ℕ) (rest : List ℕ) (ret : ℕ) (ppos : Option ℤ) (q : ℤ)
    (w : World)
    → ((ret' : ℕ) (ppos' : Option ℤ) (w' : World)
        → IsSame q w' (loop d f rest ret' ppos' (at q w')) (loop d f rest ret' ppos' w'))
    → IsSame q w (loop d f (len ∷ rest) ret ppos (at q w)) (loop d f (len ∷ rest) ret ppos w)
unfolding loop
loop_step-at d f len rest ret ppos q w later =
    let (nr, p) = f w.accesses ppos len in
    ground (arith, later (ret + bytes nr) (assign ppos p) (record_access d ppos len w))

loop_end-at :
    (d : Direction) (f : Method) (ret : ℕ) (ppos : Option ℤ) (q : ℤ) (w : World)
    → IsSame q w (loop d f [] ret ppos (at q w)) (loop d f [] ret ppos w)
unfolding loop
loop_end-at d f ret ppos q w = (refl, refl)

loop-at :
    (d : Direction) (f : Method) (lens : List ℕ) (ret : ℕ) (ppos : Option ℤ) (q : ℤ) (w : World)
    → IsSame q w (loop d f lens ret ppos (at q w)) (loop d f lens ret ppos w)
loop-at d f [] ret ppos q w = loop_end-at d f ret ppos q w
loop-at d f (len ∷ rest) ret ppos q w =
    loop_step-at d f len rest ret ppos q w λ ret' ppos' w'. loop-at d f rest ret' ppos' q w'

move_buffers-at :
    (v : Vectored) (d : Direction) (iter plain : Option Method) (lens : List ℕ) (flags : ℕ)
    (ppos : Option ℤ) (q : ℤ) (w : World)
    → IsSame q w
        (move_buffers v d iter plain lens flags ppos (at q w))
        (move_buffers v d iter plain lens flags ppos w)
unfolding move_buffers do_iter_readv_writev do_loop_readv_writev
move_buffers-at v d (some g) plain lens flags ppos q w = ground arith
move_buffers-at v d none other lens flags ppos q w = elim (Option-cases other) [
  | inl absent ↦ ground arith
  | inr (g, has) ↦ ground (arith, loop-at d g (met_buffers lens) 0 ppos q w)
]

vfs_readv-at :
    (v : Vectored) (flags : ℕ) (ppos : Option ℤ) (q : ℤ) (w : World)
    → IsSame q w (vfs_readv v flags ppos (at q w)) (vfs_readv v flags ppos w)
unfolding vfs_readv rw_verify_area
vfs_readv-at v flags ppos q w = elim (Result-cases v.import_iovec) [
  | inl (lens, imported) ↦
      ground (arith, move_buffers-at v reading v.driver.read_iter v.driver.read lens flags ppos q w)
  | inr (e, failed) ↦ ground arith
]

-- For a file with positions that may be read at any, `preadv` at an offset that is not negative does
-- what `readv` does to the file placed at that offset, under the same flags, and leaves the
-- file's own position alone: the same return value, calls of the methods, notices and charges.
pub do_preadv-do_readv :
    (v : Vectored) (p : ℤ) (flags : ℕ) (w : World)
    → v.driver.fdget ≡ true
    → w.file.f_mode.fmode_pread ≡ true
    → w.file.f_mode.fmode_stream ≡ false
    → is_neg p ≡ false
    → let (ret, w') = do_readv v flags (at p w) in
      do_preadv v p flags w ≡ (ret, record w' { file = w.file })
unfolding do_readv do_preadv
do_preadv-do_readv v p flags w open_file seekable positions nonneg =
    ground (arith, vfs_readv-at v flags (some p) p w)

bit_or-zero : (n : ℕ) → bit_or 0 n ≡ n
bit_or-zero n = λ i. bit_or-bitwise 0 n i

high_shifted_out : (high : ℕ) → high * 2 ^ 32 % 2 ^ 64 * 2 ^ 32 % 2 ^ 64 ≡ 0
high_shifted_out high = omega arith

pos_from_hilo-low : (high low : ℕ) → pos_from_hilo high low ≡ signed64 low
unfolding pos_from_hilo
pos_from_hilo-low high low = rw (high_shifted_out high, bit_or-zero low)

refuses :
    (v : Vectored) (n flags : ℕ) (w : World) → do_preadv v (negsuc n) flags w ≡ (neg einval, w)
unfolding do_preadv
refuses v n flags w = refl

-- `preadv2` takes its offset from the low word alone: the largest is -1, and the call is then `readv`
-- under the flags, at the file's position; the others from 2^63 on are negative offsets and refused;
-- the rest are offsets of `preadv` under the flags.
pub sys_preadv2_offset :
    (v : Vectored) (low high flags : ℕ) (w : World)
    → low < 2 ^ 64
    → ((low ≡ 2 ^ 64 - 1) × (sys_preadv2 v low high flags w ≡ do_readv v flags w))
      ⊎ ((2 ^ 63 ≤ low) × (low < 2 ^ 64 - 1) × (sys_preadv2 v low high flags w ≡ (neg einval, w)))
      ⊎ ((low < 2 ^ 63) × (sys_preadv2 v low high flags w ≡ do_preadv v (pos low) flags w))
unfolding sys_preadv2
sys_preadv2_offset v low high flags w h =
    ground (arith, pos_from_hilo-low high low, refuses v (2 ^ 64 - low - 1) flags w)
