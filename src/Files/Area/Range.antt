-- ===== src/Files/Area/Range.antt =====
-- The ranges that pass.
use so2_202003745_vd.Base.{ℕ, ◌+◌, ◌^◌, ◌<◌, ◌≡◌, false, some, pos, arith, signed64}
use so2_202003745_vd.Files.{File, unsigned_offsets}
use so2_202003745_vd.Files.Area.{Direction, Permission, rw_verify_area}

-- A range that `rw_verify_area` lets pass in a file of signed offsets, at the offset that a pattern
-- of 64 bits stands for, starts at an offset that is not negative and ends before 2 ^ 63: neither the
-- sum nor the count is negative as a signed number.
pub rw_verify_area_range :
    (h : Permission) (d : Direction) (file : File) (start count : ℕ)
    → start < 2 ^ 64
    → count < 2 ^ 64
    → unsigned_offsets file ≡ false
    → rw_verify_area h d file (some (signed64 start)) count ≡ pos 0
    → (start < 2 ^ 63) × (count < 2 ^ 63) × (start + count < 2 ^ 63)
unfolding rw_verify_area
rw_verify_area_range h d file start count hs hc signed passed =
    (ground arith, ground arith, ground arith)
