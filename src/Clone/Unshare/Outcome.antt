-- ===== src/Clone/Unshare/Outcome.antt =====
-- What `unshare` leaves: everything on an error, and a structure of its own on success.
use so2_202003745_vd.Base.{
  ℕ, ◌<◌, Bool, true, false, Option, none, some, ℤ, pos, Result, ok, err, ◌≡◌, ◌≢◌, ◌⊎◌, inl, inr,
  ap, ◌∙◌, arith, is_neg, Result-cases,
}
use so2_202003745_vd.Clone.{test_bit, clone_fs, clone_files, clone_newns, clone_newuser}
use so2_202003745_vd.Clone.CopyProcess.Undo.{is_fresh, result_option}
use so2_202003745_vd.Clone.Unshare.{
  UnshareHost, Sharing, check_unshare_flags, unshare_fs, unshare_fd, unshare_with, ksys_unshare,
  install_fs, install_fd, entailed_flags,
}
use so2_202003745_vd.Clone.Unshare.Closure.{entailed_flags-IsClosed, entailed_flags_kept}

-- The users of a structure that may be missing.
abbrev pub users_of : Option ℕ → (ℕ → ℕ) → ℕ
users_of none counts = 0
users_of (some a) counts = counts a

-- An `unshare` that does not return 0 changes neither the current task nor a reference count.
pub ksys_unshare_error :
    (host : UnshareHost) (flags : ℕ) (s s' : Sharing) (ret : ℤ)
    → ksys_unshare host flags s ≡ (ret, s')
    → ret ≢ pos 0
    → s' ≡ s
unfolding ksys_unshare unshare_with
ksys_unshare_error host flags s s' ret run failed = ground arith

unshare_fs_alone :
    (host : UnshareHost) (s : Sharing) (flags : ℕ) (new_fs new_fd : Option ℕ)
    → test_bit clone_fs flags ≡ true
    → is_fresh host.allocators.copy_fs_struct s.refs.fs_users ≡ true
    → 0 < s.refs.fs_users s.current.fs
    → unshare_fs host s flags ≡ ok new_fs
    → let s' : Sharing = install_fd new_fd (install_fs new_fs s) in
      s'.refs.fs_users s'.current.fs ≡ 1
unfolding unshare_fs
unshare_fs_alone host s flags new_fs new_fd h fresh used made = ground arith

unshare_fd_alone :
    (host : UnshareHost) (s : Sharing) (flags : ℕ) (new_fs new_fd : Option ℕ) (old : ℕ)
    → test_bit clone_files flags ≡ true
    → is_fresh (result_option host.allocators.dup_fd) s.refs.files_count ≡ true
    → s.current.files ≡ some old
    → 0 < s.refs.files_count old
    → unshare_fd host s flags ≡ ok new_fd
    → let s' : Sharing = install_fd new_fd (install_fs new_fs s) in
      users_of s'.current.files s'.refs.files_count ≡ 1
unfolding unshare_fd
unshare_fd_alone host s flags new_fs new_fd old h fresh has used made = ground arith

-- An error is a negative number.
abbrev pub is_refusal : {A : Type 0} → Result A → Bool
is_refusal (ok a) = true
is_refusal (err e) = is_neg e

pub record UnshareErrors (host : UnshareHost) : Type 0 where
  pub dup_fd_refusal : is_refusal host.allocators.dup_fd ≡ true
  pub userns_refusal : (f : ℕ) → is_refusal (host.unshare_userns f) ≡ true
  pub nsproxy_refusal :
      (f : ℕ) (cred fs : Option ℕ) → is_refusal (host.unshare_nsproxy_namespaces f cred fs) ≡ true

unshare_fs_refusal :
    (host : UnshareHost) (s : Sharing) (flags : ℕ) → is_refusal (unshare_fs host s flags) ≡ true
unfolding unshare_fs
unshare_fs_refusal host s flags = ground arith

unshare_fd_refusal :
    (host : UnshareHost) (s : Sharing) (flags : ℕ)
    → is_refusal host.allocators.dup_fd ≡ true
    → is_refusal (unshare_fd host s flags) ≡ true
unfolding unshare_fd
unshare_fd_refusal host s flags h = ground arith

unshare_with_ok :
    (host : UnshareHost) (flags : ℕ) (s s' : Sharing)
    → UnshareErrors host
    → unshare_with host flags s ≡ (pos 0, s')
    → (check_unshare_flags host s flags ≡ pos 0)
      × ((new_fs : Option ℕ) × (new_fd : Option ℕ) × (unshare_fs host s flags ≡ ok new_fs)
          × (unshare_fd host s flags ≡ ok new_fd)
          × (s'.refs ≡ (install_fd new_fd (install_fs new_fs s)).refs)
          × (s'.current ≡ (install_fd new_fd (install_fs new_fs s)).current))
unfolding unshare_with
unshare_with_ok host flags s s' errors run = elim (Result-cases (unshare_fs host s flags)) [
  | inr (e, no_fs) ↦ absurd (ground (arith, unshare_fs_refusal host s flags))
  | inl (new_fs, some_fs) ↦ elim (Result-cases (unshare_fd host s flags)) [
    | inr (e, no_fd) ↦
        absurd (ground (arith, unshare_fd_refusal host s flags errors.dup_fd_refusal))
    | inl (new_fd, some_fd) ↦ elim (Result-cases (host.unshare_userns flags)) [
      | inr (e, no_cred) ↦ absurd (ground (arith, errors.userns_refusal flags))
      | inl (new_cred, some_cred) ↦
          elim (Result-cases (host.unshare_nsproxy_namespaces flags new_cred new_fs)) [
            | inr (e, no_ns) ↦ absurd (ground (arith, errors.nsproxy_refusal flags new_cred new_fs))
            | inl (new_ns, some_ns) ↦
                (ground arith, (new_fs, new_fd, some_fs, some_fd, ground arith, ground arith))
          ]
    ]
  ]
]

-- An `unshare` that returns 0, by a task whose structures are in use: where CLONE_FS was asked for, or
-- entailed by CLONE_NEWNS or CLONE_NEWUSER, the file system information of the task has one user, and
-- where CLONE_FILES was asked for, so has its table of files. The allocators give
-- addresses that nobody uses, and the errors of what is called are negative.
pub ksys_unshare_alone :
    (host : UnshareHost) (flags : ℕ) (s s' : Sharing) (old : ℕ)
    → UnshareErrors host
    → is_fresh host.allocators.copy_fs_struct s.refs.fs_users ≡ true
    → is_fresh (result_option host.allocators.dup_fd) s.refs.files_count ≡ true
    → 0 < s.refs.fs_users s.current.fs
    → s.current.files ≡ some old
    → 0 < s.refs.files_count old
    → ksys_unshare host flags s ≡ (pos 0, s')
    → (((test_bit clone_fs flags ≡ false)
          × (test_bit clone_newns flags ≡ false)
          × (test_bit clone_newuser flags ≡ false))
        ⊎ (s'.refs.fs_users s'.current.fs ≡ 1))
      × ((test_bit clone_files flags ≡ false) ⊎ (users_of s'.current.files s'.refs.files_count ≡ 1))
unfolding ksys_unshare
ksys_unshare_alone host flags s s' old errors fresh_fs fresh_fd used_fs has used_fd run =
    let f = entailed_flags flags in
    let (_, (new_fs, new_fd, fs, fd, refs, current)) = unshare_with_ok host f s s' errors run in
    let kept = entailed_flags_kept flags in
    let closed = entailed_flags-IsClosed flags in
    let installed : Sharing = install_fd new_fd (install_fs new_fs s) in
    let one_fs : test_bit clone_fs f ≡ true → s'.refs.fs_users s'.current.fs ≡ 1 = λ asked.
      ap (λ r. r.fs_users s'.current.fs) refs
      ∙ ap (λ c. installed.refs.fs_users c.fs) current
      ∙ unshare_fs_alone host s f new_fs new_fd asked fresh_fs used_fs fs in
    let one_fd : test_bit clone_files f ≡ true → users_of s'.current.files s'.refs.files_count ≡ 1 =
      λ asked.
        ap (λ r. users_of s'.current.files r.files_count) refs
        ∙ ap (λ c. users_of c.files installed.refs.files_count) current
        ∙ unshare_fd_alone host s f new_fs new_fd old asked fresh_fd has used_fd fd in
    (ground arith, ground arith)
