-- ===== src/Start/Init.antt =====
-- The choice of the first program: `run_init_process`, the end of `kernel_init_freeable` and that of
-- `kernel_init`, Kernel/Init/main.c.
pub mod Chosen
use so2_202003745_vd.Base.{ℕ, not, List, [], ◌∷◌, Option, none, some, ℤ, is_zero, if◌then◌else◌}

-- The path of a program: those the kernel knows, "/sbin/init", "/etc/init", "/bin/init" and "/bin/sh",
-- and others by a number.
pub data Program : Type 0 where
  sbin_init etc_init bin_init bin_sh : Program
  named : ℕ → Program

-- What the kernel ends in: the program that runs, or a panic.
pub data Ending : Type 0 where
  runs : Program → Ending
  panics : Ending

-- `kernel_execve` on a program, `init_eaccess`, and the commands; `default_init` is none where
-- CONFIG_DEFAULT_INIT is empty.
pub record InitHost : Type 0 where
  pub kernel_execve : Program → ℤ
  pub init_eaccess : Program → ℤ
  pub execute_command : Option Program
  pub default_init : Option Program

-- The programs that were tried, the latest first, and the ending.
abbrev pub Tried : Type 0
Tried = List Program × Ending

abbrev pub fallbacks : List Program
fallbacks = sbin_init ∷ etc_init ∷ bin_init ∷ bin_sh ∷ []

-- `if (!try_to_run_init_process(...) || ...) return 0; panic(...)`
unfoldable pub try_fallbacks : InitHost → List Program → List Program → Tried
try_fallbacks h [] tried = (tried, panics)
try_fallbacks h (p ∷ rest) tried =
    let others = try_fallbacks h rest (p ∷ tried) in
    if is_zero (h.kernel_execve p) then (p ∷ tried, runs p) else others

unfoldable pub try_default : InitHost → List Program → Tried
try_default h tried = elim h.default_init [
  | none ↦ try_fallbacks h fallbacks tried
  | some p ↦
      if is_zero (h.kernel_execve p)
      then (p ∷ tried, runs p)
      else try_fallbacks h fallbacks (p ∷ tried)
]

-- A command that was asked for is not replaced by another.
unfoldable pub try_command : InitHost → List Program → Tried
try_command h tried = elim h.execute_command [
  | none ↦ try_default h tried
  | some p ↦ if is_zero (h.kernel_execve p) then (p ∷ tried, runs p) else (p ∷ tried, panics)
]

unfoldable pub kernel_init : InitHost → Option Program → Tried
kernel_init h none = try_command h []
kernel_init h (some p) =
    if is_zero (h.kernel_execve p) then (p ∷ [], runs p) else try_command h (p ∷ [])

-- `if (init_eaccess(ramdisk_execute_command) != 0) ramdisk_execute_command = NULL`
unfoldable pub checked_ramdisk_command : InitHost → Option Program → Option Program
checked_ramdisk_command h none = none
checked_ramdisk_command h (some p) = if is_zero (h.init_eaccess p) then some p else none
