-- ===== src/Opening/Access.antt =====
-- `access`: whether the credentials have to be replaced, and by which.
pub mod Skipped
use so2_202003745_vd.Base.{
  ℕ, ◌/◌, ◌%◌, Bool, true, false, ◌&&◌, ◌||◌, not, ℤ, pos, neg, is_zero, ◌==◌, if◌then◌else◌,
  einval, enomem, eacces, erofs,
}

-- The fields of `struct cred` that the calls read or write; the capability sets are numbers, 0 the
-- empty one.
pub record AccessCred : Type 0 where
  pub uid : ℕ
  pub gid : ℕ
  pub fsuid : ℕ
  pub fsgid : ℕ
  pub cap_effective : ℕ
  pub cap_permitted : ℕ

-- `issecure(SECURE_NO_SETUID_FIXUP)` and `make_kuid(cred->user_ns, 0)`
pub record AccessHost : Type 0 where
  pub no_setuid_fixup : Bool
  pub root_uid : ℕ

unfoldable pub access_need_override_creds : AccessHost → Bool → AccessCred → Bool
access_need_override_creds host at_eaccess cred =
    if at_eaccess
    then false
    else if not (cred.fsuid == cred.uid) || not (cred.fsgid == cred.gid)
    then true
    else if host.no_setuid_fixup
    then false
    else if not (cred.uid == host.root_uid)
    then not (cred.cap_effective == 0)
    else not (cred.cap_effective == cred.cap_permitted)

-- The credentials that `access_override_creds` installs, from a copy of the current ones.
unfoldable pub access_override_creds : AccessHost → AccessCred → AccessCred
access_override_creds host cred = record cred {
  fsuid = cred.uid;
  fsgid = cred.gid;
  cap_effective =
      if host.no_setuid_fixup
      then cred.cap_effective
      else if not (cred.uid == host.root_uid)
      then 0
      else cred.cap_permitted;
}

-- The flags of `faccessat2`; `unknown` is the bits that are none of these.
pub record AccessFlags : Type 0 where
  pub at_eaccess : Bool
  pub at_symlink_nofollow : Bool
  pub at_empty_path : Bool
  pub unknown : ℕ

-- What `do_faccessat` finds with the credentials that it uses: `user_path_at` (follow, empty path),
-- `inode_permission` of the mode, and what it reads of the path.
pub record AccessPath : Type 0 where
  pub is_prepared : Bool
  pub user_path_at : AccessCred → Bool → Bool → ℤ
  pub inode_permission : AccessCred → ℕ → ℤ
  pub is_reg : Bool
  pub is_special : Bool
  pub is_noexec : Bool
  pub is_readonly : Bool

-- `mode & MAY_EXEC` and `mode & S_IWOTH`
abbrev pub may_exec : ℕ → Bool
may_exec mode = mode % 2 == 1

abbrev pub may_write : ℕ → Bool
may_write mode = mode / 2 % 2 == 1

-- From `retry` to `out`, with the credentials in force; the retries after -ESTALE are not modelled.
unfoldable pub access_path : AccessPath → AccessCred → ℕ → AccessFlags → ℤ
access_path path cred mode flags =
    let found = path.user_path_at cred (not flags.at_symlink_nofollow) flags.at_empty_path in
    if not (is_zero found)
    then found
    else if (may_exec mode && path.is_reg) && path.is_noexec
    then neg eacces
    else if not (is_zero (path.inode_permission cred mode))
    then path.inode_permission cred mode
    else if not (may_write mode) || path.is_special
    then pos 0
    else if path.is_readonly
    then neg erofs
    else pos 0

-- The result, and the credentials of the current task then.
unfoldable pub do_faccessat :
    AccessHost → AccessPath → ℕ → AccessFlags → AccessCred → ℤ × AccessCred
do_faccessat host path mode flags cred =
    if not (mode / 8 == 0)
    then (neg einval, cred)
    else if not (flags.unknown == 0)
    then (neg einval, cred)
    else if not (access_need_override_creds host flags.at_eaccess cred)
    then (access_path path cred mode flags, cred)
    else if not path.is_prepared
    then (neg enomem, cred)
    else (access_path path (access_override_creds host cred) mode flags, cred)
