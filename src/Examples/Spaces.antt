-- ===== src/Examples/Spaces.antt =====
-- Setting the bounds of an address space and its executable.
use so2_202003745_vd.Base.{
  ℕ, ◌≡◌, ◌⊎◌, List, [], ◌∷◌, none, some, true, false, pos, is_zero, refl, arith, ◌==◌,
  if◌then◌else◌,
}
use so2_202003745_vd.Prctl.ExeFile.{FileStore, ExeMm, ExeHost, ExeState}
use so2_202003745_vd.Prctl.ExeFile.Denied.{
  IsHeld, ExeCall, replace, set_fd, after_calls, after_calls-IsHeld,
}
use so2_202003745_vd.Prctl.SetMm.{
  Layout, MmState, MmHost, SetMmOption, set_brk, set_auxv, prctl_set_mm,
}
use so2_202003745_vd.Prctl.SetMm.Atomic.{prctl_set_mm_atomic}
use so2_202003745_vd.Prctl.SetMm.LaidOut.{
  IsLaidOut, IsTerminated, after_set_mm, after_set_mm-IsSound,
}

-- File 4 has one reference and one denial: that of the space that runs it.
abbrev files : FileStore
files = record {
  references = λ file. if file == 4 then 1 else 0;
  denials = λ file. if file == 4 then 1 else 0;
}

abbrev space : ExeMm
space = record { exe_file = some 4; vm_files = none ∷ [] }

abbrev running : ExeState
running = (space, files)

abbrev exe_host : ExeHost
exe_host = record {
  path_equal = λ a b. a == b;
  write_busy = λ file. pos 0;
  fdget = λ fd. some 5;
  is_reg = λ file. true;
  path_noexec = λ file. false;
  file_permission_exec = λ file. pos 0;
}

abbrev no_others : ℕ → ℕ
no_others file = 0

running-IsHeld : IsHeld no_others running
running-IsHeld file = ground arith

abbrev replacements : List ExeCall
replacements = set_fd 3 ∷ replace 4 ∷ replace 4 ∷ []

after_calls-IsHeld_example : IsHeld no_others (after_calls exe_host replacements running)
after_calls-IsHeld_example =
    after_calls-IsHeld exe_host no_others replacements running running-IsHeld

abbrev layout : Layout
layout = record {
  start_code = 5000;
  end_code = 6000;
  start_data = 7000;
  end_data = 8000;
  start_brk = 9000;
  brk = 9500;
  start_stack = 20000;
  arg_start = 20000;
  arg_end = 20100;
  env_start = 20100;
  env_end = 20200;
}

abbrev state : MmState
state = record { layout = layout; saved_auxv = λ i. 0; exe = running; written = none }

abbrev host : MmHost
host = record {
  exe = exe_host;
  task_size = 100000;
  mmap_min_addr = 4096;
  at_vector_size = 4;
  rlimit_data = 50000;
  check_data_rlimit = λ rlim new start end_data start_data. pos 0;
  read_map = λ address. none;
  read_auxv = λ address len. some (λ i. 1);
  can_put_user = λ address. true;
  capable = λ capability. true;
  is_checkpoint_restore_capable = true;
  has_vma = λ address. true;
}

prctl_set_mm_atomic_example :
    (is_zero (prctl_set_mm host set_brk 100 0 0 state).0 ≡ true)
    ⊎ ((prctl_set_mm host set_brk 100 0 0 state).1 ≡ state)
prctl_set_mm_atomic_example = prctl_set_mm_atomic host set_brk 100 0 0 state

layout-IsLaidOut : IsLaidOut host layout
layout-IsLaidOut = record {
  code = omega arith;
  data_segment = omega arith;
  heap = omega arith;
  stack = omega arith;
  arguments = omega arith;
  environment = omega arith;
  limit = refl;
}

zero-IsTerminated : IsTerminated host (λ i. 0)
zero-IsTerminated i low high = refl

-- a new brk, one that is refused, a whole vector
abbrev settings : List (SetMmOption × ℕ × ℕ × ℕ)
settings = (set_brk, 9700, 0, 0) ∷ (set_brk, 100, 0, 0) ∷ (set_auxv, 600, 32, 0) ∷ []

after_set_mm-IsSound_example :
    IsLaidOut host (after_set_mm host settings state).layout
    × ((after_set_mm host settings state).saved_auxv 20 ≡ 0)
after_set_mm-IsSound_example =
    after_set_mm-IsSound host settings state 20 layout-IsLaidOut zero-IsTerminated (omega arith)
      (omega arith)
