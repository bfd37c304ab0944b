-- ===== src/Clone/Clone3/Accepted.antt =====
-- The arguments of a `clone3` that reach `kernel_clone`.
use so2_202003745_vd.Base.{
  ℕ, ◌+◌, ◌^◌, ◌%◌, ◌≤◌, ◌<◌, true, false, some, ok, ◌≡◌, ◌⊎◌, inl, inr, arith, word, Result-cases,
  Option-cases,
}
use so2_202003745_vd.Clone.{
  test_bit, clone_detached, clone_sighand, clone_clear_sighand, clone_thread, clone_parent,
  clone_into_cgroup,
}
use so2_202003745_vd.Clone.CopyProcess.{KernelCloneArgs}
use so2_202003745_vd.Clone.Clone3.{
  UserSpace, CloneArgs, args_check, copy_clone_args_from_user, clone3_stack_valid,
  clone3_args_valid, clone3_kargs, int_max, clone_args_size_ver2, clone_args_size_ver0, nsig,
  kernel_args,
}

module _ (user : UserSpace) (usize : ℕ) (args : CloneArgs) where
  copy_clone_args_ok :
      (kargs : KernelCloneArgs)
      → user.copy_struct_from_user usize ≡ ok args
      → copy_clone_args_from_user user usize ≡ ok kargs
      → (kargs ≡ kernel_args args)
        × (clone_args_size_ver0 ≤ usize)
        × (args.exit_signal ≤ nsig)
        × (test_bit clone_into_cgroup args.flags ≡ true
            → (args.cgroup ≤ int_max) × (clone_args_size_ver2 ≤ usize))
  unfolding copy_clone_args_from_user args_check
  copy_clone_args_ok kargs read copied =
      (ground arith, ground arith, ground arith, λ h. ground arith)

args_valid_ok :
    (user : UserSpace) (kargs valid : KernelCloneArgs)
    → clone3_args_valid user kargs ≡ some valid
    → (kargs.flags < 2 ^ 34)
      × (test_bit clone_detached kargs.flags ≡ false)
      × ((test_bit clone_sighand kargs.flags ≡ false)
          ⊎ (test_bit clone_clear_sighand kargs.flags ≡ false))
      × ((test_bit clone_thread kargs.flags ≡ true) ⊎ (test_bit clone_parent kargs.flags ≡ true)
          → kargs.exit_signal ≡ 0)
      × (clone3_stack_valid user kargs ≡ some valid)
unfolding clone3_args_valid
args_valid_ok user kargs valid passed =
    (ground arith, ground arith, ground arith, (λ h. ground arith), ground arith)

stack_valid_ok :
    (user : UserSpace) (kargs valid : KernelCloneArgs)
    → clone3_stack_valid user kargs ≡ some valid
    → (valid.flags ≡ kargs.flags)
      × (valid.exit_signal ≡ kargs.exit_signal)
      × (valid.cgroup ≡ kargs.cgroup)
      × (((kargs.stack ≡ 0) × (kargs.stack_size ≡ 0) × (valid.stack ≡ 0))
          ⊎ ((0 < kargs.stack_size)
              × (user.access_ok kargs.stack kargs.stack_size ≡ true)
              × (valid.stack ≡ (kargs.stack + kargs.stack_size) % word)))
unfolding clone3_stack_valid
stack_valid_ok user kargs valid passed = (ground arith, ground arith, ground arith, ground arith)

-- The arguments that a `clone3` passes on, where it reads `args` from user space: no unknown flag, no
-- CLONE_DETACHED and not both CLONE_SIGHAND and CLONE_CLEAR_SIGHAND; a signal that exists, and none
-- for a thread or a sibling; a descriptor of a control group only in a structure that has the
-- field; and either no stack or one that user space may write, which is passed on by its end.
pub clone3_kargs_ok :
    (user : UserSpace) (usize : ℕ) (args : CloneArgs) (kargs : KernelCloneArgs)
    → user.copy_struct_from_user usize ≡ ok args
    → clone3_kargs user usize ≡ ok kargs
    → ((kargs.flags ≡ args.flags)
        × (kargs.flags < 2 ^ 34)
        × (test_bit clone_detached kargs.flags ≡ false))
      × ((test_bit clone_sighand kargs.flags ≡ false)
          ⊎ (test_bit clone_clear_sighand kargs.flags ≡ false))
      × ((kargs.exit_signal ≡ args.exit_signal) × (kargs.exit_signal ≤ nsig))
      × (((test_bit clone_thread kargs.flags ≡ false) × (test_bit clone_parent kargs.flags ≡ false))
          ⊎ (kargs.exit_signal ≡ 0))
      × ((test_bit clone_into_cgroup kargs.flags ≡ false)
          ⊎ ((kargs.cgroup ≤ int_max) × (clone_args_size_ver2 ≤ usize)))
      × (((args.stack ≡ 0) × (args.stack_size ≡ 0) × (kargs.stack ≡ 0))
          ⊎ ((0 < args.stack_size)
              × (user.access_ok args.stack args.stack_size ≡ true)
              × (kargs.stack ≡ (args.stack + args.stack_size) % word)))
unfolding clone3_kargs
clone3_kargs_ok user usize args kargs read passed =
    elim (Result-cases (copy_clone_args_from_user user usize)) [
      | inr (e, failed) ↦ ground arith
      | inl (copied, done) ↦ elim (Option-cases (clone3_args_valid user copied)) [
        | inl refused ↦ ground arith
        | inr (valid, accepted) ↦
            let (same, _, signal, cgroup) = copy_clone_args_ok user usize args copied read done in
            let (flags, detached, handlers, thread, stack) =
              args_valid_ok user copied valid accepted in
            let (f, s, c, ends) = stack_valid_ok user copied valid stack in
            (
              (ground arith, ground arith, ground arith),
              ground arith,
              (ground arith, ground arith),
              ground arith,
              ground arith,
              ground arith,
            )
      ]
    ]
