-- ===== src/Hostname.antt =====
-- The names of the machine, Kernel/kernel/sys.c: `sethostname`, `gethostname`, `setdomainname`.
pub mod Readback
use so2_202003745_vd.Base.{
  ℕ, zero, suc, ◌+◌, ◌-◌, List, [], ◌∷◌, ◌++◌, length, take, Option, none, some, Bool, true, false,
  ◌||◌, not, ℤ, pos, negsuc, neg, is_neg, ltb, leb, ◌==◌, if◌then◌else◌, Result, Call, ok, err,
  ◌>>=◌, ◌>>◌, pure, gets, modify, return_if, non_null, eperm, efault, einval, cap_sys_admin,
}

-- `__NEW_UTS_LEN`; the fields of `struct new_utsname` have one byte more
abbrev pub new_uts_len : ℕ
new_uts_len = 64

-- what `uts_proc_notify` is told
pub data Notice : Type 0 where
  hostname_changed domainname_changed : Notice

-- Two fields of `utsname()`, as bytes, and the notices given, the latest first.
pub record Uts : Type 0 where
  pub nodename : List ℕ
  pub domainname : List ℕ
  pub notices : List Notice

-- The capability test over the namespace's owner, and the bytes that `copy_from_user` reads for a
-- length, if it reads them all.
pub record Host : Type 0 where
  pub ns_capable : ℕ → Bool
  pub copy_from_user : ℕ → Option (List ℕ)

abbrev pub to_size : ℤ → ℕ
to_size (pos n) = n
to_size (negsuc n) = 0

abbrev pub is_bad_length : ℤ → Bool
is_bad_length len = is_neg len || ltb new_uts_len (to_size len)

abbrev pub zeros : ℕ → List ℕ
zeros zero = []
zeros (suc n) = 0 ∷ zeros n

-- `memcpy(field, tmp, len)` and `memset(field + len, 0, sizeof(field) - len)`
abbrev pub fill : List ℕ → List ℕ
fill tmp = tmp ++ zeros (new_uts_len + 1 - length tmp)

-- `sethostname`
unfoldable pub sethostname : Host → ℤ → Call Uts ℤ
sethostname h len = do
  return_if (not (h.ns_capable cap_sys_admin)) (neg eperm)
  return_if (is_bad_length len) (neg einval)
  tmp ← non_null (h.copy_from_user (to_size len)) (neg efault)
  modify (λ u. record u { nodename = fill tmp; notices = hostname_changed ∷ u.notices })
  pure (pos 0)

-- `setdomainname`
unfoldable pub setdomainname : Host → ℤ → Call Uts ℤ
setdomainname h len = do
  return_if (not (h.ns_capable cap_sys_admin)) (neg eperm)
  return_if (is_bad_length len) (neg einval)
  tmp ← non_null (h.copy_from_user (to_size len)) (neg efault)
  modify (λ u. record u { domainname = fill tmp; notices = domainname_changed ∷ u.notices })
  pure (pos 0)

-- the bytes before the first NUL
unfoldable pub strlen : List ℕ → ℕ
strlen [] = 0
strlen (c ∷ rest) = let n = strlen rest in if c == 0 then 0 else suc n

abbrev pub at_most : ℕ → ℕ → ℕ
at_most i len = if ltb len i then len else i

-- `gethostname`: `ok` is the return of 0 with the bytes written to user space; `copied` tells
-- whether they can be written
unfoldable pub gethostname : ℤ → Bool → Call Uts (List ℕ)
gethostname len copied = do
  return_if (is_neg len) (neg einval)
  u ← gets (λ u. u)
  tmp ← pure (take (at_most (1 + strlen u.nodename) (to_size len)) u.nodename)
  return_if (not copied) (neg efault)
  pure tmp
