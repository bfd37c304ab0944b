-- ===== src/Clone/Unshare/Closure.antt =====
-- The flags that `unshare` acts on.
use so2_202003745_vd.Base.{ℕ, true, ◌≡◌, arith, if◌then◌else◌}
use so2_202003745_vd.Clone.{
  test_bit, set_bit, clone_vm, clone_fs, clone_sighand, clone_thread, clone_newns, clone_newuser,
  clone_files,
}
use so2_202003745_vd.Clone.Unshare.{entailed_flags, entail}

set_fs_others :
    (f : ℕ)
    → (test_bit clone_fs (set_bit clone_fs f) ≡ true)
      × (test_bit clone_thread (set_bit clone_fs f) ≡ test_bit clone_thread f)
      × (test_bit clone_sighand (set_bit clone_fs f) ≡ test_bit clone_sighand f)
      × (test_bit clone_vm (set_bit clone_fs f) ≡ test_bit clone_vm f)
      × (test_bit clone_newns (set_bit clone_fs f) ≡ test_bit clone_newns f)
      × (test_bit clone_newuser (set_bit clone_fs f) ≡ test_bit clone_newuser f)
      × (test_bit clone_files (set_bit clone_fs f) ≡ test_bit clone_files f)
unfolding set_bit test_bit
set_fs_others f = (
  ground arith,
  ground arith,
  ground arith,
  ground arith,
  ground arith,
  ground arith,
  ground arith,
)

set_thread_others :
    (f : ℕ)
    → (test_bit clone_thread (set_bit clone_thread f) ≡ true)
      × (test_bit clone_fs (set_bit clone_thread f) ≡ test_bit clone_fs f)
      × (test_bit clone_sighand (set_bit clone_thread f) ≡ test_bit clone_sighand f)
      × (test_bit clone_vm (set_bit clone_thread f) ≡ test_bit clone_vm f)
      × (test_bit clone_newns (set_bit clone_thread f) ≡ test_bit clone_newns f)
      × (test_bit clone_newuser (set_bit clone_thread f) ≡ test_bit clone_newuser f)
      × (test_bit clone_files (set_bit clone_thread f) ≡ test_bit clone_files f)
unfolding set_bit test_bit
set_thread_others f = (
  ground arith,
  ground arith,
  ground arith,
  ground arith,
  ground arith,
  ground arith,
  ground arith,
)

set_sighand_others :
    (f : ℕ)
    → (test_bit clone_sighand (set_bit clone_sighand f) ≡ true)
      × (test_bit clone_fs (set_bit clone_sighand f) ≡ test_bit clone_fs f)
      × (test_bit clone_thread (set_bit clone_sighand f) ≡ test_bit clone_thread f)
      × (test_bit clone_vm (set_bit clone_sighand f) ≡ test_bit clone_vm f)
      × (test_bit clone_newns (set_bit clone_sighand f) ≡ test_bit clone_newns f)
      × (test_bit clone_newuser (set_bit clone_sighand f) ≡ test_bit clone_newuser f)
      × (test_bit clone_files (set_bit clone_sighand f) ≡ test_bit clone_files f)
unfolding set_bit test_bit
set_sighand_others f = (
  ground arith,
  ground arith,
  ground arith,
  ground arith,
  ground arith,
  ground arith,
  ground arith,
)

-- Nothing is left to entail.
abbrev pub IsClosed : ℕ → Type 0
IsClosed f =
    (test_bit clone_newuser f ≡ true
      → (test_bit clone_thread f ≡ true) × (test_bit clone_fs f ≡ true))
    × (test_bit clone_vm f ≡ true → test_bit clone_sighand f ≡ true)
    × (test_bit clone_sighand f ≡ true → test_bit clone_thread f ≡ true)
    × (test_bit clone_newns f ≡ true → test_bit clone_fs f ≡ true)

abbrev pub after_newuser : ℕ → ℕ
after_newuser f = if test_bit clone_newuser f then set_bit clone_fs (set_bit clone_thread f) else f

pub entailed_flags-IsClosed : (f : ℕ) → IsClosed (entailed_flags f)
unfolding entailed_flags
entailed_flags-IsClosed f =
    let f1 = after_newuser f in
    let f2 = entail clone_vm clone_sighand f1 in
    let f3 = entail clone_sighand clone_thread f2 in
    let a = set_thread_others f in
    let b = set_fs_others (set_bit clone_thread f) in
    let c = set_sighand_others f1 in
    let d = set_thread_others f2 in let e = set_fs_others f3 in ground arith

set_bit_same : (k f : ℕ) → test_bit k f ≡ true → set_bit k f ≡ f
unfolding set_bit
set_bit_same k f h = ground arith

entailed_flags_fixed : (f : ℕ) → IsClosed f → entailed_flags f ≡ f
unfolding entailed_flags
entailed_flags_fixed f closed =
    let a = set_bit_same clone_thread f in
    let b = set_bit_same clone_fs f in let c = set_bit_same clone_sighand f in ground arith

-- Once the flags hold all that they entail, entailing again adds nothing.
pub entailed_flags_twice : (f : ℕ) → entailed_flags (entailed_flags f) ≡ entailed_flags f
entailed_flags_twice f = entailed_flags_fixed (entailed_flags f) (entailed_flags-IsClosed f)

-- What was asked for stays.
pub entailed_flags_kept :
    (f : ℕ)
    → (test_bit clone_fs f ≡ true → test_bit clone_fs (entailed_flags f) ≡ true)
      × (test_bit clone_newns (entailed_flags f) ≡ test_bit clone_newns f)
      × (test_bit clone_newuser (entailed_flags f) ≡ test_bit clone_newuser f)
      × (test_bit clone_files (entailed_flags f) ≡ test_bit clone_files f)
unfolding entailed_flags
entailed_flags_kept f =
    let f1 = after_newuser f in
    let f2 = entail clone_vm clone_sighand f1 in
    let f3 = entail clone_sighand clone_thread f2 in
    let a = set_thread_others f in
    let b = set_fs_others (set_bit clone_thread f) in
    let c = set_sighand_others f1 in
    let d = set_thread_others f2 in let e = set_fs_others f3 in ground arith
