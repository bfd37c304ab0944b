-- ===== src/Clone/Clone3.antt =====
-- `clone3`: the arguments from user space, their tests, and the call.
pub mod Accepted
use so2_202003745_vd.Base.{
  ℕ, ◌+◌, ◌-◌, ◌^◌, ◌/◌, ◌%◌, Bool, true, false, ◌&&◌, ◌||◌, not, Option, none, some, ℤ, pos, neg,
  is_zero, ltb, ◌==◌, if◌then◌else◌, Result, ok, err, einval, e2big, efault, page_size, word,
}
use so2_202003745_vd.Clone.{
  Process, test_bit, clone_detached, clone_sighand, clone_clear_sighand, clone_thread, clone_parent,
  clone_into_cgroup,
}
use so2_202003745_vd.Clone.CopyProcess.{ForkHost, KernelCloneArgs}
use so2_202003745_vd.Clone.Calls.{Tracer, Clones, kernel_clone, no_args}

-- CLONE_ARGS_SIZE_VER0 and CLONE_ARGS_SIZE_VER2
abbrev pub clone_args_size_ver0 : ℕ
clone_args_size_ver0 = 64

abbrev pub clone_args_size_ver2 : ℕ
clone_args_size_ver2 = 88

-- MAX_PID_NS_LEVEL, _NSIG and INT_MAX
abbrev pub max_pid_ns_level : ℕ
max_pid_ns_level = 32

abbrev pub nsig : ℕ
nsig = 64

abbrev pub int_max : ℕ
int_max = 2 ^ 31 - 1

-- `struct clone_args`, of 64-bit numbers
pub record CloneArgs : Type 0 where
  pub flags : ℕ
  pub pidfd : ℕ
  pub child_tid : ℕ
  pub parent_tid : ℕ
  pub exit_signal : ℕ
  pub stack : ℕ
  pub stack_size : ℕ
  pub tls : ℕ
  pub set_tid : ℕ
  pub set_tid_size : ℕ
  pub cgroup : ℕ

-- User space: `copy_struct_from_user` of a structure of `usize` bytes, whether the copy of the
-- array at `set_tid` faults, and `access_ok`.
pub record UserSpace : Type 0 where
  pub copy_struct_from_user : ℕ → Result CloneArgs
  pub faults : ℕ → ℕ → Bool
  pub access_ok : ℕ → ℕ → Bool

-- The tests of the structure.
unfoldable pub args_check : CloneArgs → ℕ → ℤ
args_check args usize =
    if ltb max_pid_ns_level args.set_tid_size
    then neg einval
    else if args.set_tid == 0 && ltb 0 args.set_tid_size
    then neg einval
    else if not (args.set_tid == 0) && args.set_tid_size == 0
    then neg einval
    else if not (args.exit_signal / 256 == 0) || ltb nsig args.exit_signal
    then neg einval
    else if test_bit clone_into_cgroup args.flags
        && (ltb int_max args.cgroup || ltb usize clone_args_size_ver2)
    then neg einval
    else pos 0

abbrev pub kernel_args : CloneArgs → KernelCloneArgs
kernel_args args = record no_args {
  flags = args.flags;
  pidfd = args.pidfd;
  child_tid = args.child_tid;
  parent_tid = args.parent_tid;
  exit_signal = args.exit_signal;
  stack = args.stack;
  stack_size = args.stack_size;
  tls = args.tls;
  set_tid_size = args.set_tid_size;
  cgroup = args.cgroup;
}

unfoldable pub copy_clone_args_from_user : UserSpace → ℕ → Result KernelCloneArgs
copy_clone_args_from_user user usize =
    if ltb page_size usize
    then err (neg e2big)
    else if ltb usize clone_args_size_ver0
    then err (neg einval)
    else elim (user.copy_struct_from_user usize) [
      | err e ↦ err e
      | ok args ↦
          if not (is_zero (args_check args usize))
          then err (args_check args usize)
          else if not (args.set_tid == 0) && user.faults args.set_tid args.set_tid_size
          then err (neg efault)
          else ok (kernel_args args)
    ]

-- `clone3_stack_valid`: the arguments with the end of the stack, or `none` for false. The stack
-- grows down.
unfoldable pub clone3_stack_valid : UserSpace → KernelCloneArgs → Option KernelCloneArgs
clone3_stack_valid user kargs =
    if kargs.stack == 0
    then if ltb 0 kargs.stack_size then none else some kargs
    else if kargs.stack_size == 0
    then none
    else if not (user.access_ok kargs.stack kargs.stack_size)
    then none
    else some (record kargs { stack = (kargs.stack + kargs.stack_size) % word })

unfoldable pub clone3_args_valid : UserSpace → KernelCloneArgs → Option KernelCloneArgs
clone3_args_valid user kargs =
    if not (kargs.flags / 2 ^ 34 == 0)
    then none
    else if test_bit clone_detached kargs.flags || not (kargs.flags % 128 == 0)
    then none
    else if test_bit clone_sighand kargs.flags && test_bit clone_clear_sighand kargs.flags
    then none
    else if (test_bit clone_thread kargs.flags || test_bit clone_parent kargs.flags)
        && not (kargs.exit_signal == 0)
    then none
    else clone3_stack_valid user kargs

-- What `clone3` passes to `kernel_clone`, or its error.
unfoldable pub clone3_kargs : UserSpace → ℕ → Result KernelCloneArgs
clone3_kargs user usize = elim (copy_clone_args_from_user user usize) [
  | err e ↦ err e
  | ok kargs ↦ elim (clone3_args_valid user kargs) [
    | none ↦ err (neg einval)
    | some valid ↦ ok valid
  ]
]

unfoldable pub sys_clone3 : ForkHost → Tracer → UserSpace → Process → ℕ → Clones → ℤ × Clones
sys_clone3 host tracer user current usize s = elim (clone3_kargs user usize) [
  | err e ↦ (e, s)
  | ok kargs ↦ kernel_clone host tracer current kargs s
]
