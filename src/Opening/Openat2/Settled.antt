-- ===== src/Opening/Openat2/Settled.antt =====
-- The descriptor table between opens: a descriptor is taken exactly if it has a file.
use so2_202003745_vd.Base.{
  ℕ, ◌+◌, Bool, false, is_some, List, [], ◌∷◌, Result, ok, err, ℤ, ◌≡◌, refl, ◌∙◌, inl, inr, arith,
  Result-cases,
}
use so2_202003745_vd.Opening.Flags.{OpenBits, OpenHow, OpenFlags, build_open_how, build_open_flags}
use so2_202003745_vd.Opening.Openat2.{
  OpenFiles, OpenHost, open_named, hold_name, do_sys_openat2, sys_open_counted, sys_openat,
  sys_creat, sys_openat2, largefile_how, at_fdcwd,
}

-- Every descriptor is taken if and only if it has a file.
abbrev pub IsSettled : OpenFiles → Type 0
IsSettled s = (b : ℕ) → s.open_fds b ≡ is_some (s.fd b)

-- `get_unused_fd_flags` finds descriptors that are not taken.
abbrev pub FindsFree : OpenHost → Type 0
FindsFree host = (fds : ℕ → Bool) (n : ℕ) → host.get_unused_fd fds ≡ ok n → fds n ≡ false

open_named-IsSettled :
    (host : OpenHost) (dfd : ℤ) (tmp : ℕ) (op : OpenFlags) (s : OpenFiles)
    → FindsFree host
    → IsSettled s
    → let s' = (open_named host dfd tmp op s).1 in
      IsSettled s' × (s'.names ≡ s.names) × (s'.open_call_counter ≡ s.open_call_counter)
unfolding open_named
open_named-IsSettled host dfd tmp op s finds settled =
    elim (Result-cases (host.get_unused_fd s.open_fds)) [
      | inr (e, none_free) ↦ ((λ b. ground (arith, settled b)), ground arith, ground arith)
      | inl (n, found) ↦
          ((λ b. ground (arith, settled b, finds s.open_fds n found)), ground arith, ground arith)
    ]

-- A settled table, the same names, and `k` opens more in the counter.
abbrev pub Settles : ℕ → OpenFiles → OpenFiles → Type 0
Settles k s s' =
    IsSettled s' × (s'.names ≡ s.names) × (s'.open_call_counter ≡ s.open_call_counter + k)

do_sys_openat2-Settles :
    (host : OpenHost) (dfd : ℤ) (filename : ℕ) (how : OpenHow) (s : OpenFiles)
    → FindsFree host
    → IsSettled s
    → Settles 0 s (do_sys_openat2 host dfd filename how s).1
unfolding do_sys_openat2
do_sys_openat2-Settles host dfd filename how s finds settled =
    elim (Result-cases (build_open_flags how)) [
      | inr (e, refused) ↦ ((λ b. ground (arith, settled b)), ground arith, ground arith)
      | inl (op, built) ↦ elim (Result-cases (host.getname filename)) [
        | inr (e, unnamed) ↦ ((λ b. ground (arith, settled b)), ground arith, ground arith)
        | inl (tmp, named) ↦
            let (table, names, counter) =
              open_named-IsSettled host dfd tmp op (hold_name s) finds settled in
            ((λ b. ground (arith, settled b, table b)), ground arith, ground arith)
      ]
    ]

-- The calls that open a file.
pub data OpenCall : Type 0 where
  openat_call : ℤ → ℕ → OpenBits → ℕ → OpenCall
  creat_call : ℕ → ℕ → OpenCall
  openat2_call : ℤ → ℕ → Result OpenHow → ℕ → OpenCall

abbrev pub open_call : OpenHost → OpenCall → OpenFiles → OpenFiles
open_call host (openat_call dfd filename flags mode) s =
    (sys_openat host dfd filename flags mode s).1
open_call host (creat_call pathname mode) s = (sys_creat host pathname mode s).1
open_call host (openat2_call dfd filename how usize) s =
    (sys_openat2 host dfd filename how usize s).1

-- What `open_call_counter` makes of a call.
abbrev pub counted : OpenCall → ℕ
counted (openat_call dfd filename flags mode) = 1
counted (creat_call pathname mode) = 1
counted (openat2_call dfd filename how usize) = 0

-- Calls in a row, each with what it finds the rest of the kernel to be.
abbrev pub count_opens : List (OpenHost × OpenCall) → ℕ
count_opens [] = 0
count_opens ((host, c) ∷ cs) = counted c + count_opens cs

abbrev pub AllFindFree : List (OpenHost × OpenCall) → Type 0
AllFindFree [] = Unit {0}
AllFindFree ((host, c) ∷ cs) = FindsFree host × AllFindFree cs

unfoldable pub after_opens : List (OpenHost × OpenCall) → OpenFiles → OpenFiles
after_opens [] s = s
after_opens ((host, c) ∷ cs) s = after_opens cs (open_call host c s)

sys_open_counted-Settles :
    (host : OpenHost) (dfd : ℤ) (filename : ℕ) (flags : OpenBits) (mode : ℕ) (s : OpenFiles)
    → FindsFree host
    → IsSettled s
    → Settles 1 s (sys_open_counted host dfd filename flags mode s).1
unfolding sys_open_counted
sys_open_counted-Settles host dfd filename flags mode s finds settled =
    let grown : OpenFiles = record s { open_call_counter = s.open_call_counter + 1 } in
    let (table, names, counter) =
      do_sys_openat2-Settles host dfd filename (build_open_how flags mode) grown finds settled in
    (table, names, ground arith)

open_call-Settles :
    (host : OpenHost) (c : OpenCall) (s : OpenFiles)
    → FindsFree host
    → IsSettled s
    → Settles (counted c) s (open_call host c s)
unfolding sys_openat sys_creat sys_openat2
open_call-Settles host (openat_call dfd filename flags mode) s finds settled =
    sys_open_counted-Settles host dfd filename _ mode s finds settled
open_call-Settles host (creat_call pathname mode) s finds settled =
    sys_open_counted-Settles host at_fdcwd pathname _ mode s finds settled
open_call-Settles host (openat2_call dfd filename (err e) usize) s finds settled =
    ((λ b. ground (arith, settled b)), ground arith, ground arith)
open_call-Settles host (openat2_call dfd filename (ok how) usize) s finds settled =
    let (table, names, counter) =
      do_sys_openat2-Settles host dfd filename (largefile_how host how) s finds settled in
    ((λ b. ground (arith, settled b, table b)), ground arith, ground arith)

-- In a table where a descriptor is taken exactly if it has a file, and where `get_unused_fd_flags`
-- finds descriptors that are not taken: whatever calls open files, in whatever order, of whatever names
-- and with whatever flags, and whichever of them fail at whatever point, afterwards too a descriptor
-- is taken exactly if it has a file, no name is held longer than its call, and `open_call_counter`
-- has grown by the number of calls other than `openat2`.
pub after_opens-Settles :
    (cs : List (OpenHost × OpenCall)) (s : OpenFiles)
    → AllFindFree cs
    → IsSettled s
    → Settles (count_opens cs) s (after_opens cs s)
unfolding after_opens
after_opens-Settles [] s finds settled = (settled, refl, ground arith)
after_opens-Settles ((host, c) ∷ cs) s (finds, later) settled =
    let (table, names, counter) = open_call-Settles host c s finds settled in
    let (table', names', counter') = after_opens-Settles cs (open_call host c s) later table in
    (table', names' ∙ names, ground arith)
