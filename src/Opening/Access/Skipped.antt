-- ===== src/Opening/Access/Skipped.antt =====
-- The shortcut of `access` and the work that it saves agree.
use so2_202003745_vd.Base.{ℕ, ◌<◌, true, false, Bool-cases, inl, inr, ap, ◌≡◌, ◌↔◌, arith}
use so2_202003745_vd.Opening.Access.{
  AccessCred, AccessHost, AccessFlags, AccessPath, access_path, do_faccessat,
  access_need_override_creds, access_override_creds,
}

-- Without AT_EACCESS the replacement of the credentials is skipped exactly where it would
-- change nothing: `access_need_override_creds` is false if and only if `access_override_creds` gives the
-- credentials that are there.
pub access_need_override_creds_iff :
    (host : AccessHost) (cred : AccessCred)
    → (access_need_override_creds host false cred ≡ false)
      ↔ (access_override_creds host cred ≡ cred)
unfolding access_need_override_creds access_override_creds
access_need_override_creds_iff host cred = ground arith

-- An `access` of a mode below 8, with known flags and without AT_EACCESS, while memory lasts:
-- the path is always looked up and tested with the real ids, as if the credentials were replaced every
-- time, and the credentials of the task are the same after it.
pub do_faccessat_real :
    (host : AccessHost) (path : AccessPath) (mode : ℕ) (flags : AccessFlags) (cred : AccessCred)
    → mode < 8
    → flags.unknown ≡ 0
    → flags.at_eaccess ≡ false
    → path.is_prepared ≡ true
    → do_faccessat host path mode flags cred
      ≡ (access_path path (access_override_creds host cred) mode flags, cred)
unfolding do_faccessat
do_faccessat_real host path mode flags cred small known real prepared =
    let same = access_need_override_creds_iff host cred in
    elim (Bool-cases (access_need_override_creds host false cred)) [
      | inl needed ↦ ground arith
      | inr skipped ↦
          let unchanged = same.0 skipped in
          ground (arith, ap (λ c. access_path path c mode flags) unchanged)
    ]
