-- ===== src/Start/Initcalls.antt =====
-- The calls that set the kernel up: `initcall_blacklist`, `do_one_initcall` and the loops over the
-- levels, Kernel/Init/main.c.
pub mod Blacklist
pub mod Order
use so2_202003745_vd.Base.{
  ℕ, ◌+◌, Bool, false, ◌||◌, not, List, [], ◌∷◌, ℤ, neg, ◌==◌, if◌then◌else◌, eperm,
}

-- A call by the number of its name, which is the name of the function up to a space.
pub record Initcall : Type 0 where
  pub name : ℕ

-- The count of preemption and the interrupts, the blacklist, the calls made (the latest first), and
-- the warnings.
pub record Booting : Type 0 where
  pub preempt_count : ℕ
  pub irqs_disabled : Bool
  pub blacklisted_initcalls : List ℕ
  pub calls : List ℕ
  pub warnings : ℕ

-- What a call does: its result, and the count of preemption and the state of the interrupts it leaves.
abbrev pub Effect : Type 0
Effect = Initcall → Booting → ℤ × ℕ × Bool

-- `initcall_blacklist`, of the names between the commas; the entries go to the front of the list.
unfoldable pub initcall_blacklist : List ℕ → Booting → Booting
initcall_blacklist [] b = b
initcall_blacklist (str_entry ∷ rest) b =
    initcall_blacklist rest
      (record b { blacklisted_initcalls = str_entry ∷ b.blacklisted_initcalls })

unfoldable pub is_listed : ℕ → List ℕ → Bool
is_listed fn_name [] = false
is_listed fn_name (entry ∷ rest) = (fn_name == entry) || is_listed fn_name rest

unfoldable pub initcall_blacklisted : Initcall → Booting → Bool
initcall_blacklisted fn b = is_listed fn.name b.blacklisted_initcalls

-- The count is set back and the interrupts are enabled; either is warned of.
unfoldable pub do_one_initcall : Effect → Initcall → Booting → ℤ × Booting
do_one_initcall effect fn b =
    let (ret, count, disabled) = effect fn b in
    if initcall_blacklisted fn b then (neg eperm, b) else (
      ret,
      record b {
        irqs_disabled = false;
        calls = fn.name ∷ b.calls;
        warnings =
            if not (count == b.preempt_count) || disabled then b.warnings + 1 else b.warnings;
      },
    )

-- The loop of a level, `do_initcall_level`, and that of `do_pre_smp_initcalls`; the options of the level
-- are parsed elsewhere, and the results are not looked at.
unfoldable pub do_initcall_level : Effect → List Initcall → Booting → Booting
do_initcall_level effect [] b = b
do_initcall_level effect (fn ∷ rest) b =
    do_initcall_level effect rest (do_one_initcall effect fn b).1

unfoldable pub do_pre_smp_initcalls : Effect → List Initcall → Booting → Booting
do_pre_smp_initcalls effect early b = do_initcall_level effect early b

-- The loop over the levels.
unfoldable pub do_initcalls : Effect → List (List Initcall) → Booting → Booting
do_initcalls effect [] b = b
do_initcalls effect (level ∷ levels) b =
    do_initcalls effect levels (do_initcall_level effect level b)
