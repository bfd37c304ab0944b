-- ===== src/Prctl/Kept.antt =====
-- What no sequence of `prctl` calls can undo.
use so2_202003745_vd.Base.{◌≤◌, ◌≡◌, true, List, [], ◌∷◌, arith}
use so2_202003745_vd.Prctl.{
  PrOption, set_pdeathsig, get_pdeathsig, get_dumpable, set_dumpable, get_timing, set_timing,
  set_name, get_name, get_timerslack, set_timerslack, mce_kill, mce_kill_get, set_child_subreaper,
  get_child_subreaper, set_no_new_privs, get_no_new_privs, get_thp_disable, set_thp_disable,
  set_io_flusher, get_io_flusher, unknown, elsewhere, Args, Attributes, PrHost, mce_set,
  mce_kill_option, set_io_flusher_option, serve_option, prctl, last_signal,
}

-- The task may gain no privileges by an exec, is dumped for its user or not at all, and is sent at most
-- the last signal when its parent dies.
abbrev pub IsConfined : Attributes → Type 0
IsConfined s = (s.no_new_privs ≡ true) × (s.dumpable ≤ 1) × (s.pdeath_signal ≤ last_signal)

serve-IsConfined :
    (host : PrHost) (o : PrOption) (a : Args) (s : Attributes)
    → IsConfined s
    → IsConfined (serve_option host o a s).1
unfolding serve_option mce_kill_option mce_set set_io_flusher_option
serve-IsConfined host set_pdeathsig a s c = ground arith
serve-IsConfined host get_pdeathsig a s c = ground arith
serve-IsConfined host get_dumpable a s c = c
serve-IsConfined host set_dumpable a s c = ground arith
serve-IsConfined host get_timing a s c = c
serve-IsConfined host set_timing a s c = c
serve-IsConfined host set_name a s c = ground arith
serve-IsConfined host get_name a s c = ground arith
serve-IsConfined host get_timerslack a s c = c
serve-IsConfined host set_timerslack a s c = c
serve-IsConfined host mce_kill a s c = ground arith
serve-IsConfined host mce_kill_get a s c = ground arith
serve-IsConfined host set_child_subreaper a s c = c
serve-IsConfined host get_child_subreaper a s c = ground arith
serve-IsConfined host set_no_new_privs a s c = ground arith
serve-IsConfined host get_no_new_privs a s c = ground arith
serve-IsConfined host get_thp_disable a s c = ground arith
serve-IsConfined host set_thp_disable a s c = ground arith
serve-IsConfined host set_io_flusher a s c = ground arith
serve-IsConfined host get_io_flusher a s c = ground arith
serve-IsConfined host unknown a s c = c
serve-IsConfined host (elsewhere n) a s c = c

prctl-IsConfined :
    (host : PrHost) (o : PrOption) (a : Args) (s : Attributes)
    → IsConfined s
    → IsConfined (prctl host o a s).1
unfolding prctl
prctl-IsConfined host o a s c = ground (arith, serve-IsConfined host o a s c)

-- the attributes after a number of calls
unfoldable pub after_prctls : PrHost → List (PrOption × Args) → Attributes → Attributes
after_prctls host [] s = s
after_prctls host ((o, a) ∷ rest) s = after_prctls host rest (prctl host o a s).1

-- No sequence of `prctl` calls, with whatever options and arguments, clears the `no_new_privs` of a task
-- that has it, nor takes its dumpable attribute above 1 or its parent-death signal above the last one.
pub after_prctls-IsConfined :
    (host : PrHost) (l : List (PrOption × Args)) (s : Attributes)
    → IsConfined s
    → IsConfined (after_prctls host l s)
unfolding after_prctls
after_prctls-IsConfined host [] s c = c
after_prctls-IsConfined host ((o, a) ∷ rest) s c =
    after_prctls-IsConfined host rest (prctl host o a s).1 (prctl-IsConfined host o a s c)
