-- ===== src/Opening/Openat2.antt =====
-- `do_sys_openat2` and the calls that lead to it: the descriptor table, the names taken from user
-- space, and the counter of opens.
pub mod Settled
use so2_202003745_vd.Base.{
  ℕ, ◌+◌, ◌-◌, Bool, true, false, not, Option, none, some, ℤ, pos, neg, ltb, ◌==◌, ◌&&◌,
  if◌then◌else◌, Result, ok, err, einval,
}
use so2_202003745_vd.Opening.Flags.{
  OpenBits, OpenHow, OpenFlags, build_open_how, build_open_flags, no_bits,
}

-- The descriptors of the current task: which are taken (`open_fds`) and the file of each (`fd`), with
-- the number of names held, and `open_call_counter`.
pub record OpenFiles : Type 0 where
  pub open_fds : ℕ → Bool
  pub fd : ℕ → Option ℕ
  pub names : ℕ
  pub open_call_counter : ℕ

-- What a call takes from the rest of the kernel: `getname` of a pointer to user space, the descriptor
-- that `get_unused_fd_flags` finds, `do_filp_open` of a directory and a name, and `force_o_largefile`.
pub record OpenHost : Type 0 where
  pub getname : ℕ → Result ℕ
  pub get_unused_fd : (ℕ → Bool) → Result ℕ
  pub do_filp_open : ℤ → ℕ → OpenFlags → Result ℕ
  pub force_o_largefile : Bool

abbrev pub set_fd : {A : Type 0} → ℕ → A → (ℕ → A) → ℕ → A
set_fd n x table b = if n == b then x else table b

-- From `get_unused_fd_flags` to the end, with the name held.
unfoldable pub open_named : OpenHost → ℤ → ℕ → OpenFlags → OpenFiles → ℤ × OpenFiles
open_named host dfd tmp op s = elim (host.get_unused_fd s.open_fds) [
  | err e ↦ (e, s)
  | ok n ↦
      let reserved : OpenFiles = record s { open_fds = set_fd n true s.open_fds } in
      elim (host.do_filp_open dfd tmp op) [
        | err e ↦ (e, record reserved { open_fds = set_fd n false reserved.open_fds })
        | ok f ↦ (pos n, record reserved { fd = set_fd n (some f) s.fd })
      ]
]

abbrev pub hold_name : OpenFiles → OpenFiles
hold_name s = record s { names = s.names + 1 }

-- `putname`
abbrev pub putname : ℤ × OpenFiles → ℤ × OpenFiles
putname (ret, s) = (ret, record s { names = s.names - 1 })

unfoldable pub do_sys_openat2 : OpenHost → ℤ → ℕ → OpenHow → OpenFiles → ℤ × OpenFiles
do_sys_openat2 host dfd filename how s = elim (build_open_flags how) [
  | err e ↦ (e, s)
  | ok op ↦ elim (host.getname filename) [
    | err e ↦ (e, s)
    | ok tmp ↦ putname (open_named host dfd tmp op (hold_name s))
  ]
]

unfoldable pub sys_open_counted : OpenHost → ℤ → ℕ → OpenBits → ℕ → OpenFiles → ℤ × OpenFiles
sys_open_counted host dfd filename flags mode s =
    do_sys_openat2 host dfd filename (build_open_how flags mode)
      (record s { open_call_counter = s.open_call_counter + 1 })

-- `flags |= O_LARGEFILE` where that is forced
abbrev pub with_largefile : OpenHost → OpenBits → OpenBits
with_largefile host flags =
    if host.force_o_largefile then record flags { o_largefile = true } else flags

-- AT_FDCWD
abbrev pub at_fdcwd : ℤ
at_fdcwd = neg 100

-- `openat`, and `open` at AT_FDCWD
unfoldable pub sys_openat : OpenHost → ℤ → ℕ → OpenBits → ℕ → OpenFiles → ℤ × OpenFiles
sys_openat host dfd filename flags mode s =
    sys_open_counted host dfd filename (with_largefile host flags) mode s

-- O_CREAT | O_WRONLY | O_TRUNC
abbrev pub creat_flags : OpenBits
creat_flags = record no_bits { accmode = 1; o_creat = true; o_trunc = true }

unfoldable pub sys_creat : OpenHost → ℕ → ℕ → OpenFiles → ℤ × OpenFiles
sys_creat host pathname mode s =
    sys_open_counted host at_fdcwd pathname (with_largefile host creat_flags) mode s

-- O_LARGEFILE is only for an open without O_PATH.
abbrev pub largefile_how : OpenHost → OpenHow → OpenHow
largefile_how host how = record how {
  flags = if how.flags.o_path then how.flags else with_largefile host how.flags;
}

-- OPEN_HOW_SIZE_VER0
abbrev pub open_how_size_ver0 : ℕ
open_how_size_ver0 = 24

-- `openat2`, of a structure of `usize` bytes that is copied from user space
unfoldable pub sys_openat2 : OpenHost → ℤ → ℕ → Result OpenHow → ℕ → OpenFiles → ℤ × OpenFiles
sys_openat2 host dfd filename how usize s =
    if ltb usize open_how_size_ver0 then (neg einval, s) else elim how [
      | err e ↦ (e, s)
      | ok tmp ↦ do_sys_openat2 host dfd filename (largefile_how host tmp) s
    ]
