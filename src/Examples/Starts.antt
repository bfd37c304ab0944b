-- ===== src/Examples/Starts.antt =====
-- The start of the kernel.
use so2_202003745_vd.Base.{ℕ, ℤ, List, [], ◌∷◌, none, some, true, false, pos, neg, inr, refl, Bool}
use so2_202003745_vd.Start.Options.{Entry, BootOption, Boot}
use so2_202003745_vd.Start.Options.Bounded.{
  IsBounded, OptionCall, argument, unknown, after_options, after_options-IsBounded,
}
use so2_202003745_vd.Start.Initcalls.{Initcall, Booting, Effect, initcall_blacklist, do_initcalls}
use so2_202003745_vd.Start.Initcalls.Blacklist.{IsNamed}
use so2_202003745_vd.Start.Initcalls.Order.{Ran, all_calls, do_initcalls-Ran}
use so2_202003745_vd.Start.Init.{
  InitHost, Program, sbin_init, etc_init, bin_init, bin_sh, named, fallbacks, kernel_init,
}
use so2_202003745_vd.Start.Init.Chosen.{
  OneWorks, works_here, works_later, RunsFirst, kernel_init-Runs,
}

abbrev entry : ℕ → Entry
entry n = record { name = n; text = n }

abbrev option : Bool → ℕ → BootOption
option has_value n = record {
  entry = entry n;
  has_value = has_value;
  is_sysctl_alias = false;
  is_obsolete = false;
  has_dot = false;
}

-- Arrays of three entries, for a limit of 1.
abbrev boot : Boot
boot = record {
  argv_init = some (entry 0) ∷ none ∷ none ∷ [];
  envp_init = some (entry 1) ∷ none ∷ none ∷ [];
  panic_later = false;
  execute_command = none;
  ramdisk_execute_command = none;
  overrun = false;
}

abbrev command_line : List OptionCall
command_line =
    unknown (option false 7)
    ∷ unknown (option true 8)
    ∷ unknown (option false 9)
    ∷ argument (option false 10)
    ∷ []

after_options-IsBounded_example : IsBounded 1 (after_options 1 command_line boot)
after_options-IsBounded_example =
    after_options-IsBounded 1 command_line boot (refl, inr (refl, refl, refl, refl))

abbrev levels : List (List Initcall)
levels = (record { name = 1 } ∷ record { name = 2 } ∷ []) ∷ [] ∷ (record { name = 3 } ∷ []) ∷ []

abbrev booting : Booting
booting = record {
  preempt_count = 1;
  irqs_disabled = false;
  blacklisted_initcalls = 2 ∷ [];
  calls = [];
  warnings = 0;
}

-- leaves the interrupts disabled
abbrev careless : Effect
careless fn b = (neg 19, 2, true)

do_initcalls-Ran_example :
    Ran
      (IsNamed (3 ∷ []) (2 ∷ []))
      (all_calls levels)
      booting
      (do_initcalls careless levels (initcall_blacklist (3 ∷ []) booting))
do_initcalls-Ran_example = do_initcalls-Ran careless (3 ∷ []) levels booting refl

abbrev only_bin_sh : Program → ℤ
only_bin_sh bin_sh = pos 0
only_bin_sh other = neg 2

abbrev init_host : InitHost
init_host = record {
  kernel_execve = only_bin_sh;
  init_eaccess = λ p. pos 0;
  execute_command = none;
  default_init = some (named 9);
}

last_works : OneWorks init_host fallbacks
last_works = works_later sbin_init (etc_init ∷ bin_init ∷ bin_sh ∷ []) (
    works_later etc_init (bin_init ∷ bin_sh ∷ [])
      (works_later bin_init (bin_sh ∷ []) (works_here bin_sh [] refl)))

kernel_init-Runs_example :
    RunsFirst init_host
      (named 8 ∷ named 9 ∷ sbin_init ∷ etc_init ∷ bin_init ∷ bin_sh ∷ [])
      (kernel_init init_host (some (named 8)))
kernel_init-Runs_example = kernel_init-Runs init_host (some (named 8)) refl last_works
