-- ===== src/Files/Seek/Bounds.antt =====
-- Where a file's position can be.
use so2_202003745_vd.Base.{
  ℕ, ◌≡◌, ◌⊎◌, true, false, List, [], ◌∷◌, ℤ, is_neg, ltz, enter, arith, inl, inr, refl, Bool, Call,
  Bool-cases, is_zero, add64, ◌==◌, if◌then◌else◌,
}
use so2_202003745_vd.Files.{File, unsigned_offsets}
use so2_202003745_vd.Files.Seek.{
  vfs_setpos, seek_from_here, seek_within, generic_file_llseek_size, vfs_llseek, ksys_lseek,
  at_or_past, Inode, generic_file_llseek, seek_cur, seek_end, seek_data, seek_hole,
}

-- Between 0 and the largest offset, in a file whose offsets are signed.
abbrev pub IsWithin : ℤ → File → Type 0
IsWithin maxsize file =
    (is_neg file.f_pos ≡ false) × (ltz maxsize file.f_pos ≡ false) × (unsigned_offsets file ≡ false)

-- A seek has either moved to the offset that it returns, or failed and moved nothing.
abbrev pub Moves : ℤ → File → ℤ × File → Type 0
Moves maxsize file (ret, file') =
    ((ret ≡ file'.f_pos) × IsWithin maxsize file') ⊎ ((is_neg ret ≡ true) × (file' ≡ file))

vfs_setpos-Moves :
    (offset maxsize : ℤ) (file : File)
    → IsWithin maxsize file
    → Moves maxsize file (enter (vfs_setpos offset maxsize) file)
unfolding vfs_setpos
vfs_setpos-Moves offset maxsize file w = ground arith

module _ (offset maxsize : ℤ) (file : File) (w : IsWithin maxsize file) where
  seek_from_here-Moves : Moves maxsize file (enter (seek_from_here offset maxsize) file)
  unfolding seek_from_here
  seek_from_here-Moves = elim (Bool-cases (is_zero offset)) [
    | inl asks ↦ rw asks (inl (refl, w))
    | inr goes ↦ rw goes (vfs_setpos-Moves (add64 file.f_pos offset) maxsize file w)
  ]

  seek_within-Moves :
      (target eof : ℤ) → Moves maxsize file (enter (seek_within offset target maxsize eof) file)
  unfolding seek_within
  seek_within-Moves target eof = elim (Bool-cases (at_or_past offset eof)) [
    | inl past ↦ rw past (inr (refl, refl))
    | inr before ↦ rw before (vfs_setpos-Moves target maxsize file w)
  ]

  choose-Moves :
      (b : Bool) (m n : Call File ℤ)
      → Moves maxsize file (enter m file)
      → Moves maxsize file (enter n file)
      → Moves maxsize file (enter (if b then m else n) file)
  choose-Moves true m n p q = p
  choose-Moves false m n p q = q

  pub generic_file_llseek_size-Moves :
      (whence : ℕ) (eof : ℤ)
      → Moves maxsize file (enter (generic_file_llseek_size offset whence maxsize eof) file)
  unfolding generic_file_llseek_size
  generic_file_llseek_size-Moves whence eof =
      choose-Moves (whence == seek_end) _ _ (vfs_setpos-Moves (add64 offset eof) maxsize file w) (
        choose-Moves (whence == seek_cur) _ _ seek_from_here-Moves (
          choose-Moves (whence == seek_data) _ _ (seek_within-Moves offset eof) (
            choose-Moves (whence == seek_hole) _ _ (seek_within-Moves eof eof)
              (vfs_setpos-Moves offset maxsize file w))))

-- `lseek` on a regular file whose position is within its file system's largest size either returns
-- the new position, which is within that size too, or it returns an error and moves nothing.
pub ksys_lseek-Moves :
    (inode : Inode) (offset : ℤ) (whence : ℕ) (file : File)
    → IsWithin inode.s_maxbytes file
    → Moves inode.s_maxbytes file
        (enter (ksys_lseek (generic_file_llseek inode) offset whence) file)
unfolding ksys_lseek vfs_llseek generic_file_llseek
ksys_lseek-Moves inode offset whence file w =
    ground
      (arith, generic_file_llseek_size-Moves offset inode.s_maxbytes file w whence inode.i_size)

-- the file after a number of `lseek` calls, each with an offset and a whence
pub after_seeks : Inode → List (ℤ × ℕ) → File → File
after_seeks inode [] file = file
after_seeks inode ((offset, whence) ∷ rest) file =
    after_seeks inode rest (enter (ksys_lseek (generic_file_llseek inode) offset whence) file).1

Moves-IsWithin :
    (maxsize : ℤ) (file : File) (after : ℤ × File)
    → IsWithin maxsize file
    → Moves maxsize file after
    → IsWithin maxsize after.1
Moves-IsWithin maxsize file after w (inl (moved, within)) = within
Moves-IsWithin maxsize file after w (inr (failed, same)) = rw same w

-- No sequence of `lseek` calls, with whatever offsets and whences, takes the position of a regular
-- file below 0 or past its file system's largest size.
pub after_seeks-IsWithin :
    (inode : Inode) (l : List (ℤ × ℕ)) (file : File)
    → IsWithin inode.s_maxbytes file
    → IsWithin inode.s_maxbytes (after_seeks inode l file)
unfolding after_seeks
after_seeks-IsWithin inode [] file w = w
after_seeks-IsWithin inode ((offset, whence) ∷ rest) file w =
    let after = enter (ksys_lseek (generic_file_llseek inode) offset whence) file in
    after_seeks-IsWithin inode rest after.1
      (Moves-IsWithin inode.s_maxbytes file after w (ksys_lseek-Moves inode offset whence file w))
