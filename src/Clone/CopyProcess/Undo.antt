-- ===== src/Clone/CopyProcess/Undo.antt =====
-- A copy that fails gives back every reference that it took.
use so2_202003745_vd.Base.{
  ℕ, Bool, true, Option, none, some, ℤ, pos, is_zero, is_neg, if◌then◌else◌, arith, Result, ◌==◌,
  ok, err, ◌≡◌, refl,
}
use so2_202003745_vd.Clone.{Process, References, decrement}
use so2_202003745_vd.Clone.Resources.{
  Allocators, copy_files, copy_fs, copy_sighand, copy_signal, copy_mm, mmput, cleanup_signal,
  cleanup_sighand, cleanup_files,
}
use so2_202003745_vd.Clone.CopyProcess.{
  ForkHost, KernelCloneArgs, copy_resources, copy_process, from_cleanup_mm,
}

-- A result that is no error carries 0 or more, an error a number below 0.
abbrev pub is_errno : Result ℕ → Bool
is_errno (ok a) = true
is_errno (err e) = is_neg e

-- `exit_files` and `exit_fs` take one reference from the structure that they are given, and `dup_fd`
-- that gives no table sets a negative error.
pub record Releases (host : Allocators) : Type 0 where
  pub dup_fd_error : is_errno host.dup_fd ≡ true
  pub exit_files_drops :
      (a : ℕ) (counts : ℕ → ℕ) (b : ℕ) → host.exit_files a counts b ≡ decrement a counts b
  pub exit_fs_drops :
      (a : ℕ) (counts : ℕ → ℕ) (b : ℕ) → host.exit_fs a counts b ≡ decrement a counts b

-- An allocator gives addresses that nobody uses.
abbrev pub is_fresh : Option ℕ → (ℕ → ℕ) → Bool
is_fresh none counts = true
is_fresh (some a) counts = counts a == 0

abbrev pub result_option : Result ℕ → Option ℕ
result_option (ok a) = some a
result_option (err e) = none

pub record Fresh (host : Allocators) (w : References) : Type 0 where
  pub fresh_files : is_fresh (result_option host.dup_fd) w.files_count ≡ true
  pub fresh_fs : is_fresh host.copy_fs_struct w.fs_users ≡ true
  pub fresh_sighand : is_fresh host.new_sighand w.sighand_count ≡ true
  pub fresh_signal : is_fresh host.new_signal w.group_threads ≡ true
  pub fresh_mm : is_fresh host.dup_mm w.mm_users ≡ true

-- The same counts at the address `b`, and the same counters.
abbrev pub UnchangedAt : ℕ → References → References → Type 0
UnchangedAt b w w' =
    (w'.files_count b ≡ w.files_count b)
    × (w'.fs_users b ≡ w.fs_users b)
    × (w'.sighand_count b ≡ w.sighand_count b)
    × (w'.group_threads b ≡ w.group_threads b)
    × (w'.mm_users b ≡ w.mm_users b)
    × (w'.nr_threads ≡ w.nr_threads)
    × (w'.total_forks ≡ w.total_forks)

module _ (host : Allocators) (releases : Releases host) (current : Process) (flags : ℕ)
    (w : References) (fresh : Fresh host w) where
  files_given_back :
      (no_files : Bool) (ret : ℤ) (files : Option ℕ) (counts : ℕ → ℕ) (b : ℕ)
      → copy_files host current flags no_files w.files_count ≡ (ret, (files, counts))
      → ret ≡ pos 0
      → cleanup_files host files counts b ≡ w.files_count b
  unfolding copy_files
  files_given_back no_files ret none counts b run done = ground (arith, fresh.fresh_files)
  files_given_back no_files ret (some a) counts b run done =
      ground (arith, releases.dup_fd_error, releases.exit_files_drops a counts b, fresh.fresh_files)

  fs_given_back :
      (ret : ℤ) (fs : ℕ) (counts : ℕ → ℕ) (b : ℕ)
      → copy_fs host current flags w.fs_users ≡ (ret, (fs, counts))
      → ret ≡ pos 0
      → host.exit_fs fs counts b ≡ w.fs_users b
  unfolding copy_fs
  fs_given_back ret fs counts b run done =
      ground (arith, releases.exit_fs_drops fs counts b, fresh.fresh_fs)

  sighand_given_back :
      (ret : ℤ) (sighand : ℕ) (counts : ℕ → ℕ) (b : ℕ)
      → copy_sighand host current flags w.sighand_count ≡ (ret, (sighand, counts))
      → ret ≡ pos 0
      → cleanup_sighand sighand counts b ≡ w.sighand_count b
  unfolding copy_sighand
  sighand_given_back ret sighand counts b run done = ground (arith, fresh.fresh_sighand)

  signal_given_back :
      (ret : ℤ) (signal : ℕ) (counts : ℕ → ℕ) (b : ℕ)
      → copy_signal host current flags w.group_threads ≡ (ret, (signal, counts))
      → ret ≡ pos 0
      → cleanup_signal flags signal counts b ≡ w.group_threads b
  unfolding copy_signal
  signal_given_back ret signal counts b run done = ground (arith, fresh.fresh_signal)

  mm_given_back :
      (ret : ℤ) (mm : Option ℕ) (counts : ℕ → ℕ) (b : ℕ)
      → copy_mm host current flags w.mm_users ≡ (ret, (mm, counts))
      → ret ≡ pos 0
      → mmput mm counts b ≡ w.mm_users b
  unfolding copy_mm
  mm_given_back ret mm counts b run done = ground (arith, fresh.fresh_mm)

  -- Where `copy_resources` fails, the counts are those before it; where it succeeds, the releases of
  -- `bad_fork_cleanup_mm` give them back.
  pub copy_resources_given_back :
      (no_files : Bool) (b : ℕ)
      → let (ret, c) = copy_resources host current flags no_files w in
        let w' : References = if is_zero ret then (from_cleanup_mm host flags c).refs else c.refs in
        UnchangedAt b w w'
  unfolding copy_resources
  copy_resources_given_back no_files b =
      let fl = copy_files host current flags no_files w.files_count in
      let fs = copy_fs host current flags w.fs_users in
      let sh = copy_sighand host current flags w.sighand_count in
      let sg = copy_signal host current flags w.group_threads in
      let m = copy_mm host current flags w.mm_users in
      let a1 = files_given_back no_files fl.0 fl.1.0 fl.1.1 b refl in
      let a2 = fs_given_back fs.0 fs.1.0 fs.1.1 b refl in
      let a3 = sighand_given_back sh.0 sh.1.0 sh.1.1 b refl in
      let a4 = signal_given_back sg.0 sg.1.0 sg.1.1 b refl in
      let a5 = mm_given_back m.0 m.1.0 m.1.1 b refl in ground arith

-- A `copy_process` that returns an error leaves the reference count of every structure, whether it
-- was to be shared or to be copied, and the numbers of threads and of forks, as they were before it.
-- The allocators give addresses that nobody uses, and `exit_files` and `exit_fs` drop one reference.
pub copy_process_error :
    (host : ForkHost) (current : Process) (args : KernelCloneArgs) (w w' : References) (e : ℤ)
    (b : ℕ)
    → Releases host.allocators
    → Fresh host.allocators w
    → copy_process host current args w ≡ (err e, w')
    → UnchangedAt b w w'
unfolding copy_process
copy_process_error host current args w w' e b releases fresh run =
    let back =
      copy_resources_given_back host.allocators releases current args.flags w fresh args.no_files
        b in
    ground arith
