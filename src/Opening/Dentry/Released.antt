-- ===== src/Opening/Dentry/Released.antt =====
-- An open that fails gives back what it took.
use so2_202003745_vd.Base.{
  ◌+◌, ◌-◌, ◌≡◌, ◌||◌, refl, ◌⊎◌, true, false, Option, none, some, ℤ, is_zero, if◌then◌else◌, arith,
  Option-cases, Bool-cases, inl, inr,
}
use so2_202003745_vd.Opening.Dentry.{
  OpenFile, Held, Open, DentryHost, file_get_write_access, get_access, cleanup_file, cleanup_all,
  open_refusal, seekable, opened_file, finish_opened, call_open, open_accessed, do_dentry_open,
  path_file,
}

-- What `put_file_access` does: it gives back the access that the modes of the file tell of.
pub record IsPutting (h : DentryHost) : Type 0 where
  pub reader :
      (f : OpenFile) (c : Held)
      → f.f_mode.fmode_read ≡ true
      → f.f_mode.fmode_write ≡ false
      → h.put_file_access f c ≡ record c { readcount = c.readcount - 1 }
  pub writer :
      (f : OpenFile) (c : Held)
      → f.f_mode.fmode_write ≡ true
      → f.fmode_writer ≡ true
      → h.put_file_access f c ≡ record c {
        writecount = c.writecount - 1;
        mnt_writers = c.mnt_writers - 1;
        backing_writers = if f.fmode_backing then c.backing_writers - 1 else c.backing_writers;
      }
  pub neither :
      (f : OpenFile) (c : Held)
      → (f.f_mode.fmode_write ≡ true) ⊎ (f.f_mode.fmode_read ≡ false)
      → f.fmode_writer ≡ false
      → h.put_file_access f c ≡ c

-- The modes of the access, which an `open` leaves alone.
abbrev pub HasAccessOf : OpenFile → OpenFile → Type 0
HasAccessOf f g =
    (g.f_mode.fmode_read ≡ f.f_mode.fmode_read)
    × (g.f_mode.fmode_write ≡ f.f_mode.fmode_write)
    × (g.fmode_writer ≡ f.fmode_writer)
    × (g.fmode_backing ≡ f.fmode_backing)

abbrev pub KeepsAccess : Open → Type 0
KeepsAccess callback = (f : OpenFile) → HasAccessOf f (callback f).1

-- `put_file_access` for a file `g` with the access modes that `get_access` left gives back what
-- that took.
undone_after :
    (h : DentryHost) (f g : OpenFile) (c : Held)
    → IsPutting h
    → f.fmode_writer ≡ false
    → is_zero (get_access h f c).0 ≡ true
    → HasAccessOf (get_access h f c).1 g
    → h.put_file_access g (get_access h f c).2 ≡ c
unfolding get_access file_get_write_access
undone_after h f g c r fresh done same =
    let d = (get_access h f c).2 in ground (arith, r.reader g d, r.writer g d, r.neither g d)

get_access_failed :
    (h : DentryHost) (f : OpenFile) (c : Held)
    → is_zero (get_access h f c).0 ≡ false
    → (get_access h f c).2 ≡ c
unfolding get_access file_get_write_access
get_access_failed h f c failed = ground arith

-- An open that did not go on, and gave back everything but one reference to the path of `before`,
-- which it put; or one that went on.
abbrev IsReleased : Held → ℤ × OpenFile × Held → Type 0
IsReleased before (error, f, c) =
    (f.fmode_opened ≡ true)
    ⊎ ((c ≡ record before { paths = before.paths - 1 }) × (f.has_inode ≡ false))

-- The module behind `f_op` is taken and put.
abbrev take_fops : DentryHost → Held → Held
take_fops h c = record c { fops = if h.has_fops then c.fops + 1 else c.fops }

abbrev put_fops : DentryHost → Held → Held
put_fops h c = record c { fops = if h.has_fops then c.fops - 1 else c.fops }

put_fops-take_fops : (h : DentryHost) (c : Held) → put_fops h (take_fops h c) ≡ c
put_fops-take_fops h c = ground arith

cleanup_all-IsReleased :
    (h : DentryHost) (error : ℤ) (g : OpenFile) (before c : Held)
    → h.put_file_access g c ≡ before
    → IsReleased before (cleanup_all h error g (take_fops h c))
unfolding cleanup_all cleanup_file
cleanup_all-IsReleased h error g before c undone =
    inr (rw (put_fops-take_fops h c, undone) (refl, refl))

call_open-KeepsAccess :
    (h : DentryHost) (callback : Option Open)
    → ((k : Open) → (callback ≡ some k) ⊎ (h.fop_open ≡ some k) → KeepsAccess k)
    → KeepsAccess (call_open h callback)
unfolding call_open
call_open-KeepsAccess h (some k) keeps f = keeps k (inl refl) f
call_open-KeepsAccess h none keeps f = elim (Option-cases h.fop_open) [
  | inl absent ↦ ground arith
  | inr (k, has) ↦ ground (arith, keeps k (inr has) f)
]

open_accessed-IsReleased :
    (h : DentryHost) (callback : Option Open) (f : OpenFile) (c before : Held)
    → ((g : OpenFile) → HasAccessOf f g → h.put_file_access g c ≡ before)
    → ((k : Open) → (callback ≡ some k) ⊎ (h.fop_open ≡ some k) → KeepsAccess k)
    → IsReleased before (open_accessed h callback f c)
unfolding open_accessed finish_opened opened_file
open_accessed-IsReleased h callback f c before undone keeps =
    let placed : OpenFile = record f {
      fmode_atomic_pos = f.fmode_atomic_pos || h.is_reg || h.is_dir;
    } in
    let asked : OpenFile = record placed { f_mode = seekable placed.f_mode } in
    let (error, g) = call_open h callback asked in
    let same = call_open-KeepsAccess h callback keeps asked in
    ground (
      arith,
      cleanup_all-IsReleased h (open_refusal h) placed before c
          (undone placed (refl, refl, refl, refl)),
      cleanup_all-IsReleased h error g before c (undone g same),
    )

-- Where `do_dentry_open` on a fresh file does not leave it open, it has given back all that it took:
-- the counts of readers and writers of the inode, the write accesses of both mounts, the module
-- of the file system and the path are as before, and the file has no inode; so it is after each
-- of the errors, the last that of the driver's `open`. The `open` leaves the access modes
-- alone, and `put_file_access` gives back the access of the modes.
pub do_dentry_open_released :
    (h : DentryHost) (callback : Option Open) (f : OpenFile) (c : Held)
    → IsPutting h
    → ((k : Open) → (callback ≡ some k) ⊎ (h.fop_open ≡ some k) → KeepsAccess k)
    → f.fmode_writer ≡ false
    → let (error, f', c') = do_dentry_open h callback f c in
      (f'.fmode_opened ≡ true) ⊎ ((c' ≡ c) × (f'.has_inode ≡ false))
unfolding do_dentry_open cleanup_file path_file
do_dentry_open_released h callback f c r keeps fresh =
    let there : OpenFile = record f { has_inode = true } in
    let pathed : Held = record c { paths = c.paths + 1 } in
    let (error, f', c') = get_access h there pathed in
    elim (Bool-cases (is_zero error)) [
      | inl done ↦ ground (
        arith,
        open_accessed-IsReleased h callback f' c' pathed
            (λ g same. undone_after h there g pathed r fresh done same) keeps,
      )
      | inr failed ↦ ground (arith, get_access_failed h there pathed failed)
    ]
