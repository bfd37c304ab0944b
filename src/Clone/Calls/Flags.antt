-- ===== src/Clone/Calls/Flags.antt =====
-- The flags that the kernel's own calls pass on, and the calls that fail.
use so2_202003745_vd.Base.{ℕ, ◌+◌, ◌<◌, true, neg, arith, ◌≡◌, Result-cases, inl, inr, ap}
use so2_202003745_vd.Clone.{
  Process, test_bit, set_bit, csignal, clone_vm, clone_untraced, clone_fs, clone_files,
  clone_sighand, clone_thread,
}
use so2_202003745_vd.Clone.Calls.{
  Tracer, Clones, kernel_thread_args, user_mode_thread_args, trace_event, clone_args, thread_flags,
  sys_clone, kernel_clone,
}
use so2_202003745_vd.Clone.CopyProcess.{ForkHost, copy_process}
use so2_202003745_vd.Clone.CopyProcess.Undo.{Fresh, Releases, UnchangedAt, copy_process_error}
use so2_202003745_vd.Counters.{Counters}

-- The flags of a thread that the kernel starts share the address space, hide it from tracers, carry
-- no signal, and keep the other sharing flags of the caller: CLONE_FS,
-- CLONE_FILES, CLONE_SIGHAND and CLONE_THREAD.
pub thread_flags_kept :
    (f : ℕ)
    → (test_bit clone_vm (thread_flags f) ≡ true)
      × (test_bit clone_untraced (thread_flags f) ≡ true)
      × (csignal (thread_flags f) ≡ 0)
      × (test_bit clone_fs (thread_flags f) ≡ test_bit clone_fs f)
      × (test_bit clone_files (thread_flags f) ≡ test_bit clone_files f)
      × (test_bit clone_sighand (thread_flags f) ≡ test_bit clone_sighand f)
      × (test_bit clone_thread (thread_flags f) ≡ test_bit clone_thread f)
unfolding test_bit set_bit
thread_flags_kept f = (
  ground arith,
  ground arith,
  ground arith,
  ground arith,
  ground arith,
  ground arith,
  ground arith,
)

-- A thread that `kernel_thread` or `user_mode_thread` starts is never reported to a tracer.
pub trace_event_thread :
    (tracer : Tracer) (flags : ℕ)
    → (trace_event tracer (kernel_thread_args flags) ≡ 0)
      × (trace_event tracer (user_mode_thread_args flags) ≡ 0)
unfolding kernel_thread_args user_mode_thread_args trace_event
trace_event_thread tracer flags =
    let (vm, untraced, _, _, _, _, _) = thread_flags_kept flags in ground arith

-- A `clone` that fails is counted as one that succeeds: `fork_call_counter` grows by 1, the other
-- counters stay, no event is seen, and each reference count is what it was.
pub sys_clone_error :
    (host : ForkHost) (tracer : Tracer) (current : Process) (flags newsp parent child tls b e : ℕ)
    → (s : Clones) (counters : Counters) → Releases host.allocators
    → Fresh host.allocators s.refs
    → (sys_clone host tracer current flags newsp parent child tls (s, counters)).0 ≡ neg e
    → 0 < e
    → let (s', counters') =
        (sys_clone host tracer current flags newsp parent child tls (s, counters)).1 in
      UnchangedAt b s.refs s'.refs
      × (s'.events ≡ s.events)
      × (counters'.fork_call_counter ≡ counters.fork_call_counter + 1)
      × (counters'.open_call_counter ≡ counters.open_call_counter)
unfolding sys_clone kernel_clone
sys_clone_error host tracer current flags newsp parent child tls b e s counters releases fresh
      failed some_error =
    let args = clone_args flags newsp parent child tls in
    let copied = copy_process host current args s.refs in
    elim (Result-cases copied.0) [
      | inl (p, done) ↦ ground arith
      | inr (err_no, failed_copy) ↦
          let undone =
            copy_process_error host current args s.refs copied.1 err_no b releases fresh
              (ap (λ r. (r, copied.1)) failed_copy) in
          ground arith
    ]
