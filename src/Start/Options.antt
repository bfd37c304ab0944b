-- ===== src/Start/Options.antt =====
-- The arguments and the environment of the first program: `set_init_arg`, `unknown_bootoption`,
-- `init_setup` and `rdinit_setup`, Kernel/Init/main.c.
pub mod Bounded
use so2_202003745_vd.Base.{
  ℕ, suc, ◌+◌, Bool, true, false, ◌&&◌, ◌||◌, not, List, [], ◌∷◌, Option, none, some, ltb, ◌==◌,
  if◌then◌else◌,
}

-- An entry of `argv_init` or `envp_init`: the number of the name up to `=`, and that of the string.
pub record Entry : Type 0 where
  pub name : ℕ
  pub text : ℕ

-- An option of the command line, and what the kernel's other tables tell of it: whether it has a
-- value, whether it is an alias of a sysctl, whether `obsolete_checksetup` takes it, whether its name
-- has a dot.
pub record BootOption : Type 0 where
  pub entry : Entry
  pub has_value : Bool
  pub is_sysctl_alias : Bool
  pub is_obsolete : Bool
  pub has_dot : Bool

-- The two arrays, of MAX_INIT_ARGS + 2 and MAX_INIT_ENVS + 2 entries; `panic_later`; the commands; and
-- whether a loop over an array ran past its end.
pub record Boot : Type 0 where
  pub argv_init : List (Option Entry)
  pub envp_init : List (Option Entry)
  pub panic_later : Bool
  pub execute_command : Option ℕ
  pub ramdisk_execute_command : Option ℕ
  pub overrun : Bool

-- A result of a loop: whether it passed the entry at the limit, whether it found a place before the
-- end of the array, and the array with the entry in that place.
abbrev pub Placed : Type 0
Placed = Bool × Bool × List (Option Entry)

-- `for (i = 0; argv_init[i]; i++) if (i == MAX_INIT_ARGS) ...; argv_init[i] = param`, from index `i`
unfoldable pub place_arg : ℕ → Entry → ℕ → List (Option Entry) → Placed
place_arg limit e i [] = (false, false, [])
place_arg limit e i (none ∷ rest) = (false, true, some e ∷ rest)
place_arg limit e i (some x ∷ rest) =
    let (passed, found, rest') = place_arg limit e (suc i) rest in
    ((i == limit) || passed, found, some x ∷ rest')

-- The same over the environment, which stops at an entry of that name too.
unfoldable pub place_env : ℕ → Entry → ℕ → List (Option Entry) → Placed
place_env limit e i [] = (false, false, [])
place_env limit e i (none ∷ rest) = (false, true, some e ∷ rest)
place_env limit e i (some x ∷ rest) =
    let (passed, found, rest') = place_env limit e (suc i) rest in
    if x.name == e.name
    then (i == limit, true, some e ∷ rest)
    else ((i == limit) || passed, found, some x ∷ rest')

unfoldable pub set_init_arg : ℕ → BootOption → Boot → Boot
set_init_arg limit o b =
    let (passed, found, argv) = place_arg limit o.entry 0 b.argv_init in
    if b.panic_later
    then b
    else if passed
    then record b { panic_later = true }
    else record b { argv_init = argv; overrun = b.overrun || not found }

-- The end of `unknown_bootoption`: the entry is written also where the limit was passed.
unfoldable pub hand_to_init : ℕ → BootOption → Boot → Boot
hand_to_init limit o b =
    let (env_passed, env_found, envp) = place_env limit o.entry 0 b.envp_init in
    let (arg_passed, arg_found, argv) = place_arg limit o.entry 0 b.argv_init in
    if o.has_value
    then record b {
      envp_init = envp;
      panic_later = env_passed;
      overrun = b.overrun || not env_found;
    }
    else record b {
      argv_init = argv;
      panic_later = arg_passed;
      overrun = b.overrun || not arg_found;
    }

unfoldable pub unknown_bootoption : ℕ → BootOption → Boot → Boot
unknown_bootoption limit o b =
    if o.is_sysctl_alias
    then b
    else if o.is_obsolete
    then b
    else if o.has_dot
    then b
    else if b.panic_later
    then b
    else hand_to_init limit o b

-- `for (i = 1; i < MAX_INIT_ARGS; i++) argv_init[i] = NULL`, from index `i`
unfoldable pub clear_args : ℕ → ℕ → List (Option Entry) → List (Option Entry)
clear_args limit i [] = []
clear_args limit i (x ∷ rest) =
    (if ltb 0 i && ltb i limit then none else x) ∷ clear_args limit (suc i) rest

unfoldable pub init_setup : ℕ → ℕ → Boot → Boot
init_setup limit str b = record b {
  execute_command = some str;
  argv_init = clear_args limit 0 b.argv_init;
}

unfoldable pub rdinit_setup : ℕ → ℕ → Boot → Boot
rdinit_setup limit str b = record b {
  ramdisk_execute_command = some str;
  argv_init = clear_args limit 0 b.argv_init;
}
