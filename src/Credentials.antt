-- ===== src/Credentials.antt =====
-- The user and group ids of the current process, Kernel/kernel/sys.c: the `set*uid` and `set*gid`
-- system calls and the calls that read the ids.
pub mod User
pub mod Group
use so2_202003745_vd.Base.{
  ℕ, ◌-◌, ◌^◌, Option, none, some, Bool, true, false, ◌&&◌, ◌||◌, not, ℤ, pos, neg, ◌==◌, is_neg,
  if◌then◌else◌, Result, Call, ok, err, ◌>>=◌, ◌>>◌, pure, gets, modify, eagain,
}
use so2_202003745_vd.Task.{Cred}

-- `current_cred()`, and whether PF_NPROC_EXCEEDED is set in `current->flags`
pub record Process : Type 0 where
  pub cred : Cred
  pub nproc_exceeded : Bool

-- What the calls take from the rest of the kernel: the mapping of ids by a user namespace, the
-- capability test, the allocator, the security hooks (given the new and the old ids and a flag),
-- the accounting of users.
pub record Host : Type 0 where
  pub make_kuid : ℕ → ℕ → ℕ
  pub make_kgid : ℕ → ℕ → ℕ
  pub from_kuid_munged : ℕ → ℕ → ℕ
  pub from_kgid_munged : ℕ → ℕ → ℕ
  pub uid_valid : ℕ → Bool
  pub gid_valid : ℕ → Bool
  pub ns_capable_setid : ℕ → ℕ → Bool
  -- whether `prepare_creds` can allocate
  pub prepare_creds : Bool
  pub security_task_fix_setuid : Cred → Cred → ℕ → ℤ
  pub security_task_fix_setgid : Cred → Cred → ℕ → ℤ
  pub alloc_uid : ℕ → Option ℕ
  -- the value returned and the accounting that is put into `new->ucounts`
  pub set_cred_ucounts : Cred → ℤ × ℕ
  pub is_rlimit_overlimit : ℕ → Bool
  pub init_user : ℕ

-- `(uid_t) -1` and `(gid_t) -1`: the argument that leaves an id alone
abbrev pub unset : ℕ
unset = 2 ^ 32 - 1

abbrev pub given : ℕ → Bool
given id = not (id == unset)

-- LSM_SETID_ID, LSM_SETID_RE, LSM_SETID_RES, LSM_SETID_FS
abbrev pub setid_id : ℕ
setid_id = 1

abbrev pub setid_re : ℕ
setid_re = 2

abbrev pub setid_res : ℕ
setid_res = 4

abbrev pub setid_fs : ℕ
setid_fs = 8

-- `set_user`: the user struct of the new uid
unfoldable pub set_user : Host → Cred → Call Process Cred
set_user h new p = elim (h.alloc_uid new.uid) [
  | none ↦ (err (neg eagain), p)
  | some new_user ↦ (ok (record new { user = new_user }), p)
]

-- `set_cred_ucounts(new)` and the test of its result
unfoldable pub account : Host → Cred → Call Process Cred
account h new p =
    let (retval, ucounts) = h.set_cred_ucounts new in
    (if is_neg retval then err retval else ok (record new { ucounts = ucounts }), p)

-- `flag_nproc_exceeded`
unfoldable pub flag_nproc_exceeded : Host → Cred → Call Process (Unit {0})
flag_nproc_exceeded h new = modify λ p. if new.ucounts == p.cred.ucounts then p else record p {
  nproc_exceeded = h.is_rlimit_overlimit new.ucounts && not (new.user == h.init_user);
}

-- `commit_creds`, which returns 0
abbrev pub commit_creds : Cred → Call Process ℤ
commit_creds new = do modify (λ p. record p { cred = new }); pure (pos 0)
