-- ===== src/Files/Vectors/Calls.antt =====
-- The system calls on several buffers, those of 32-bit programs included.
use so2_202003745_vd.Base.{ℕ, ◌*◌, ◌^◌, ◌%◌, ℤ, neg, ◌==ℤ◌, if◌then◌else◌, signed64, bit_or}
use so2_202003745_vd.Files.Transfer.{World}
use so2_202003745_vd.Files.Vectors.{Vectored, do_readv, do_writev, do_preadv, do_pwritev}

-- `pos_from_hilo`: two shifts by half of the 64 bits of a long
unfoldable pub pos_from_hilo : ℕ → ℕ → ℤ
pos_from_hilo high low = signed64 (bit_or (high * 2 ^ 32 % 2 ^ 64 * 2 ^ 32 % 2 ^ 64) low)

-- The system calls.
abbrev pub sys_readv : Vectored → World → ℤ × World
sys_readv v w = do_readv v 0 w

abbrev pub sys_writev : Vectored → World → ℤ × World
sys_writev v w = do_writev v 0 w

abbrev pub sys_preadv : Vectored → ℕ → ℕ → World → ℤ × World
sys_preadv v pos_l pos_h w = do_preadv v (pos_from_hilo pos_h pos_l) 0 w

abbrev pub sys_pwritev : Vectored → ℕ → ℕ → World → ℤ × World
sys_pwritev v pos_l pos_h w = do_pwritev v (pos_from_hilo pos_h pos_l) 0 w

unfoldable pub sys_preadv2 : Vectored → ℕ → ℕ → ℕ → World → ℤ × World
sys_preadv2 v pos_l pos_h flags w =
    if pos_from_hilo pos_h pos_l ==ℤ neg 1
    then do_readv v flags w
    else do_preadv v (pos_from_hilo pos_h pos_l) flags w

unfoldable pub sys_pwritev2 : Vectored → ℕ → ℕ → ℕ → World → ℤ × World
sys_pwritev2 v pos_l pos_h flags w =
    if pos_from_hilo pos_h pos_l ==ℤ neg 1
    then do_writev v flags w
    else do_pwritev v (pos_from_hilo pos_h pos_l) flags w

-- The calls of 32-bit programs, which take the offset in two words of 32 bits, or as one number.
abbrev pub compat_pos : ℕ → ℕ → ℤ
compat_pos pos_low pos_high = signed64 (bit_or (pos_high * 2 ^ 32 % 2 ^ 64) pos_low)

abbrev pub compat_preadv : Vectored → ℕ → ℕ → World → ℤ × World
compat_preadv v pos_low pos_high w = do_preadv v (compat_pos pos_low pos_high) 0 w

abbrev pub compat_pwritev : Vectored → ℕ → ℕ → World → ℤ × World
compat_pwritev v pos_low pos_high w = do_pwritev v (compat_pos pos_low pos_high) 0 w

unfoldable pub compat_preadv64v2 : Vectored → ℤ → ℕ → World → ℤ × World
compat_preadv64v2 v p flags w = if p ==ℤ neg 1 then do_readv v flags w else do_preadv v p flags w

unfoldable pub compat_pwritev64v2 : Vectored → ℤ → ℕ → World → ℤ × World
compat_pwritev64v2 v p flags w = if p ==ℤ neg 1 then do_writev v flags w else do_pwritev v p flags w

unfoldable pub compat_preadv2 : Vectored → ℕ → ℕ → ℕ → World → ℤ × World
compat_preadv2 v pos_low pos_high flags w =
    if compat_pos pos_low pos_high ==ℤ neg 1
    then do_readv v flags w
    else do_preadv v (compat_pos pos_low pos_high) flags w

unfoldable pub compat_pwritev2 : Vectored → ℕ → ℕ → ℕ → World → ℤ × World
compat_pwritev2 v pos_low pos_high flags w =
    if compat_pos pos_low pos_high ==ℤ neg 1
    then do_writev v flags w
    else do_pwritev v (compat_pos pos_low pos_high) flags w
