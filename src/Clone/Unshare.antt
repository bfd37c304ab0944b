-- ===== src/Clone/Unshare.antt =====
-- `unshare` and `unshare_files`: the flags that others entail, their tests, and the exchange of what
-- the current task shares for copies of its own.
pub mod Closure
pub mod Outcome
use so2_202003745_vd.Base.{
  ℕ, ◌+◌, ◌-◌, ◌^◌, Bool, true, false, ◌&&◌, ◌||◌, not, Option, none, some, is_some, ℤ, pos, neg,
  is_zero, ltb, ◌==◌, if◌then◌else◌, Result, ok, err, has, word, einval, enomem,
}
use so2_202003745_vd.Clone.{
  Process, References, set_at, decrement, test_bit, set_bit, clone_vm, clone_fs, clone_files,
  clone_sighand, clone_thread, clone_newns, clone_newuser, clone_newipc, clone_sysvsem,
}
use so2_202003745_vd.Clone.Resources.{Allocators}

-- CLONE_THREAD | CLONE_FS | CLONE_NEWNS | CLONE_SIGHAND | CLONE_VM | CLONE_FILES | CLONE_SYSVSEM and the
-- flags for new namespaces, CLONE_NEWUTS, CLONE_NEWIPC, CLONE_NEWNET, CLONE_NEWUSER, CLONE_NEWPID,
-- CLONE_NEWCGROUP, CLONE_NEWTIME
abbrev pub unshare_mask : ℕ
unshare_mask =
    2 ^ 16
    + 2 ^ 9
    + 2 ^ 17
    + 2 ^ 11
    + 2 ^ 8
    + 2 ^ 10
    + 2 ^ 18
    + (2 ^ 26 + 2 ^ 27 + 2 ^ 30 + 2 ^ 28 + 2 ^ 29 + 2 ^ 25 + 2 ^ 7)

-- What the calls take from the rest of the kernel. `new_cred` and `new_nsproxy` are the results of
-- `unshare_userns` and `unshare_nsproxy_namespaces`; a copy that was not asked for is none.
pub record UnshareHost : Type 0 where
  pub allocators : Allocators
  pub thread_group_empty : Bool
  pub current_is_single_threaded : Bool
  pub unshare_userns : ℕ → Result (Option ℕ)
  pub unshare_nsproxy_namespaces : ℕ → Option ℕ → Option ℕ → Result (Option ℕ)
  pub set_cred_ucounts : ℤ

-- The current task, the counts, its credentials and namespaces, and how often `exit_sem` was called.
pub record Sharing : Type 0 where
  pub current : Process
  pub refs : References
  pub cred : ℕ
  pub nsproxy : ℕ
  pub sem_exits : ℕ

-- The flags that others entail, in the order of the code.
abbrev pub entail : ℕ → ℕ → ℕ → ℕ
entail cause effect flags = if test_bit cause flags then set_bit effect flags else flags

unfoldable pub entailed_flags : ℕ → ℕ
entailed_flags flags = entail clone_newns clone_fs (
    entail clone_sighand clone_thread (
      entail clone_vm clone_sighand (
        if test_bit clone_newuser flags
        then set_bit clone_fs (set_bit clone_thread flags)
        else flags)))

unfoldable pub check_unshare_flags : UnshareHost → Sharing → ℕ → ℤ
check_unshare_flags host s flags =
    if has flags (word - 1 - unshare_mask)
    then neg einval
    else if (test_bit clone_thread flags || test_bit clone_sighand flags || test_bit clone_vm flags)
        && not host.thread_group_empty
    then neg einval
    else if (test_bit clone_sighand flags || test_bit clone_vm flags)
        && ltb 1 (s.refs.sighand_count s.current.sighand)
    then neg einval
    else if test_bit clone_vm flags && not host.current_is_single_threaded
    then neg einval
    else pos 0

-- `unshare_fs`: a new structure, which nobody else uses, or none
unfoldable pub unshare_fs : UnshareHost → Sharing → ℕ → Result (Option ℕ)
unshare_fs host s flags =
    if not (test_bit clone_fs flags)
    then ok none
    else if s.refs.fs_users s.current.fs == 1
    then ok none
    else elim host.allocators.copy_fs_struct [ none ↦ err (neg enomem) | some new ↦ ok (some new) ]

unfoldable pub unshare_fd : UnshareHost → Sharing → ℕ → Result (Option ℕ)
unshare_fd host s flags = elim s.current.files [
  | none ↦ ok none
  | some fd ↦
      if test_bit clone_files flags && ltb 1 (s.refs.files_count fd)
      then elim host.allocators.dup_fd [ err e ↦ err e | ok new ↦ ok (some new) ]
      else ok none
]

-- `current->fs = new_fs`, with the old one's user count
abbrev pub install_fs : Option ℕ → Sharing → Sharing
install_fs none s = s
install_fs (some new) s = record s {
  current = record s.current { fs = new };
  refs = record s.refs { fs_users = decrement s.current.fs (set_at new 1 s.refs.fs_users) };
}

-- `swap(current->files, new_fd)` and, at the end, `put_files_struct` of the old table
abbrev pub drop_files : Option ℕ → (ℕ → ℕ) → ℕ → ℕ
drop_files none counts = counts
drop_files (some old) counts = decrement old counts

abbrev pub install_fd : Option ℕ → Sharing → Sharing
install_fd none s = s
install_fd (some new) s = record s {
  current = record s.current { files = some new };
  refs = record s.refs {
    files_count = drop_files s.current.files (set_at new 1 s.refs.files_count);
  };
}

abbrev pub or_else : Option ℕ → ℕ → ℕ
or_else none old = old
or_else (some new) old = new

-- The part under the test that something is new, less the shared memory segments that CLONE_NEWIPC
-- leaves behind.
abbrev pub switch : Bool → Option ℕ → Option ℕ → Option ℕ → Option ℕ → Sharing → Sharing
switch do_sysvsem new_fs new_fd new_cred new_nsproxy s =
    let s' = install_fd new_fd (install_fs new_fs s) in
    record s' {
      cred = or_else new_cred s.cred;
      nsproxy = or_else new_nsproxy s.nsproxy;
      sem_exits = if do_sysvsem then s.sem_exits + 1 else s.sem_exits;
    }

-- `set_cred_ucounts`, when there are new credentials
abbrev pub ucounts_error : UnshareHost → Option ℕ → ℤ
ucounts_error host none = pos 0
ucounts_error host (some cred) = host.set_cred_ucounts

-- From the flags as they are checked. What is made before an error is freed again, at the labels
-- `bad_unshare_cleanup_...`, and nothing else is changed by then.
unfoldable pub unshare_with : UnshareHost → ℕ → Sharing → ℤ × Sharing
unshare_with host flags s =
    let do_sysvsem = test_bit clone_newipc flags || test_bit clone_sysvsem flags in
    if not (is_zero (check_unshare_flags host s flags))
    then (check_unshare_flags host s flags, s)
    else elim (unshare_fs host s flags) [
      | err e ↦ (e, s)
      | ok new_fs ↦ elim (unshare_fd host s flags) [
        | err e ↦ (e, s)
        | ok new_fd ↦ elim (host.unshare_userns flags) [
          | err e ↦ (e, s)
          | ok new_cred ↦ elim (host.unshare_nsproxy_namespaces flags new_cred new_fs) [
            | err e ↦ (e, s)
            | ok new_nsproxy ↦
                if not (is_zero (ucounts_error host new_cred))
                then (ucounts_error host new_cred, s)
                else (pos 0, switch do_sysvsem new_fs new_fd new_cred new_nsproxy s)
          ]
        ]
      ]
    ]

unfoldable pub ksys_unshare : UnshareHost → ℕ → Sharing → ℤ × Sharing
ksys_unshare host unshare_flags s = unshare_with host (entailed_flags unshare_flags) s

-- `unshare_files`
unfoldable pub unshare_files : UnshareHost → Sharing → ℤ × Sharing
unshare_files host s = elim (unshare_fd host s (2 ^ clone_files)) [
  | err e ↦ (e, s)
  | ok new ↦ (pos 0, install_fd new s)
]
