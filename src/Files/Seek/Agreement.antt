-- ===== src/Files/Seek/Agreement.antt =====
-- How the ways of seeking agree.
use so2_202003745_vd.Base.{
  ℕ, ◌≡◌, ◌≢◌, ◌<◌, ◌^◌, ℤ, pos, negsuc, neg, enter, arith, add64, ==ℤ_iff, einval, ap, lez, enxio,
  to_word, signed64, ◌+◌, ◌%◌,
}
use so2_202003745_vd.Files.{File}
use so2_202003745_vd.Files.Seek.{
  vfs_setpos, default_setpos, default_from_here, default_within, default_llseek, seek_from_here,
  seek_within, generic_file_llseek_size, generic_file_llseek, Inode, ksys_lseek, vfs_llseek,
  seek_set, seek_cur, seek_hole, at_or_past, move_to,
}

-- The plain method moves as the generic one does, unless the generic one finds the offset invalid.
default_setpos_lem :
    (offset maxsize : ℤ) (file : File)
    → (enter (vfs_setpos offset maxsize) file).0 ≢ neg einval
    → enter (default_setpos offset) file ≡ enter (vfs_setpos offset maxsize) file
unfolding vfs_setpos default_setpos
default_setpos_lem offset maxsize file valid = ground arith

add64_comm : (a b : ℤ) → add64 a b ≡ add64 b a
add64_comm a b =
    ap (λ (n : ℕ). signed64 (n % 2 ^ 64))
      (let e : to_word a + to_word b ≡ to_word b + to_word a = omega arith in e)

-- An offset that is not negative is past the end for both.
at_or_past_lem :
    (n m : ℕ) → n < 2 ^ 63 → m < 2 ^ 63 → at_or_past (pos n) (pos m) ≡ lez (pos m) (pos n)
at_or_past_lem n m hn hm = ground arith

-- For an offset that is not negative, and a file size that a `loff_t` holds, `default_llseek` returns
-- and moves as `generic_file_llseek` does, whatever the whence, unless the generic method finds the
-- offset invalid.
pub default_llseek-generic :
    (inode : Inode) (size offset : ℕ) (whence : ℕ) (file : File)
    → inode.i_size ≡ pos size
    → size < 2 ^ 63
    → offset < 2 ^ 63
    → (enter (generic_file_llseek inode (pos offset) whence) file).0 ≢ neg einval
    → enter (default_llseek inode.i_size (pos offset) whence) file
      ≡ enter (generic_file_llseek inode (pos offset) whence) file
unfolding generic_file_llseek generic_file_llseek_size default_llseek seek_from_here seek_within
    default_from_here default_within
default_llseek-generic inode size offset whence file e hs ho valid = ground (
  arith,
  default_setpos_lem (add64 (pos offset) inode.i_size) inode.s_maxbytes file,
  default_setpos_lem (add64 file.f_pos (pos offset)) inode.s_maxbytes file,
  default_setpos_lem inode.i_size inode.s_maxbytes file,
  default_setpos_lem (pos offset) inode.s_maxbytes file,
  add64_comm file.f_pos (pos offset),
  at_or_past_lem offset size,
)

-- For a negative offset they differ on SEEK_HOLE: `generic_file_llseek` compares as unsigned numbers
-- and returns -ENXIO; `default_llseek` compares as signed ones and moves to the end of the file.
pub default_seek_hole_negative :
    (inode : Inode) (size n : ℕ) (file : File)
    → inode.i_size ≡ pos size
    → size < 2 ^ 63
    → n < 2 ^ 63
    → (enter (default_llseek inode.i_size (negsuc n) seek_hole) file
        ≡ (pos size, move_to (pos size) file))
      × (enter (generic_file_llseek inode (negsuc n) seek_hole) file ≡ (neg enxio, file))
unfolding generic_file_llseek generic_file_llseek_size default_llseek seek_within default_within
    default_setpos
default_seek_hole_negative inode size n file e hs hn = (ground arith, ground arith)

-- After a seek to an offset that returned that offset, asking for the position (SEEK_CUR and 0)
-- returns it again and moves nothing.
pub lseek_then_ask :
    (inode : Inode) (offset : ℕ) (file : File)
    → (enter (ksys_lseek (generic_file_llseek inode) (pos offset) seek_set) file).0 ≡ pos offset
    → let file' = (enter (ksys_lseek (generic_file_llseek inode) (pos offset) seek_set) file).1 in
      enter (ksys_lseek (generic_file_llseek inode) (pos 0) seek_cur) file' ≡ (pos offset, file')
unfolding ksys_lseek vfs_llseek generic_file_llseek generic_file_llseek_size seek_from_here
    vfs_setpos
lseek_then_ask inode offset file moved = ground (arith, ==ℤ_iff (pos offset) file.f_pos)
