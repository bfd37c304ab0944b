-- ===== src/Start/Init/Chosen.antt =====
-- Which program is the first.
use so2_202003745_vd.Base.{
  ◌≡◌, true, false, List, [], ◌∷◌, Option, none, some, is_zero, arith, inl, inr, refl, ap, ◌∙◌,
  Option-cases, Bool-cases,
}
use so2_202003745_vd.Start.Init.{
  runs, panics, InitHost, Program, fallbacks, Tried, try_fallbacks, try_default, try_command,
  kernel_init,
}

-- None of the programs can be executed.
pub data AllFail (h : InitHost) : List Program → Type 0 where
  no_more : AllFail h []
  one_more :
      (p : Program) (rest : List Program)
      → is_zero (h.kernel_execve p) ≡ false
      → AllFail h rest
      → AllFail h (p ∷ rest)

-- The ending of a start: the last program tried runs and those before it failed, or all failed.
pub data IsEnding (h : InitHost) : Tried → Type 0 where
  has_run :
      (p : Program) (before : List Program)
      → is_zero (h.kernel_execve p) ≡ true
      → AllFail h before
      → IsEnding h (p ∷ before, runs p)
  has_failed : (tried : List Program) → AllFail h tried → IsEnding h (tried, panics)

try_fallbacks-IsEnding :
    (h : InitHost) (l tried : List Program) → AllFail h tried → IsEnding h (try_fallbacks h l tried)
unfolding try_fallbacks
try_fallbacks-IsEnding h [] tried failed = has_failed tried failed
try_fallbacks-IsEnding h (p ∷ rest) tried failed = elim (Bool-cases (is_zero (h.kernel_execve p))) [
  | inl works ↦ rw works (has_run p tried works failed)
  | inr fails ↦ rw fails (try_fallbacks-IsEnding h rest (p ∷ tried) (one_more p tried fails failed))
]

-- The equations of the two steps before the fallbacks.
module _ (h : InitHost) (tried : List Program) where
  default_absent : h.default_init ≡ none → try_default h tried ≡ try_fallbacks h fallbacks tried
  unfolding try_default
  default_absent absent = ground arith

  default_works :
      (p : Program)
      → h.default_init ≡ some p
      → is_zero (h.kernel_execve p) ≡ true
      → try_default h tried ≡ (p ∷ tried, runs p)
  unfolding try_default
  default_works p there works = ground arith

  default_fails :
      (p : Program)
      → h.default_init ≡ some p
      → is_zero (h.kernel_execve p) ≡ false
      → try_default h tried ≡ try_fallbacks h fallbacks (p ∷ tried)
  unfolding try_default
  default_fails p there fails = ground arith

  command_absent : h.execute_command ≡ none → try_command h tried ≡ try_default h tried
  unfolding try_command
  command_absent absent = ground arith

  command_works :
      (p : Program)
      → h.execute_command ≡ some p
      → is_zero (h.kernel_execve p) ≡ true
      → try_command h tried ≡ (p ∷ tried, runs p)
  unfolding try_command
  command_works p there works = ground arith

  command_fails :
      (p : Program)
      → h.execute_command ≡ some p
      → is_zero (h.kernel_execve p) ≡ false
      → try_command h tried ≡ (p ∷ tried, panics)
  unfolding try_command
  command_fails p there fails = ground arith

try_default-IsEnding :
    (h : InitHost) (tried : List Program) → AllFail h tried → IsEnding h (try_default h tried)
try_default-IsEnding h tried failed = elim (Option-cases h.default_init) [
  | inl absent ↦
      rw (default_absent h tried absent) (try_fallbacks-IsEnding h fallbacks tried failed)
  | inr (p, there) ↦ elim (Bool-cases (is_zero (h.kernel_execve p))) [
    | inl works ↦ rw (default_works h tried p there works) (has_run p tried works failed)
    | inr fails ↦
        rw (default_fails h tried p there fails)
          (try_fallbacks-IsEnding h fallbacks (p ∷ tried) (one_more p tried fails failed))
  ]
]

try_command-IsEnding :
    (h : InitHost) (tried : List Program) → AllFail h tried → IsEnding h (try_command h tried)
try_command-IsEnding h tried failed = elim (Option-cases h.execute_command) [
  | inl absent ↦ rw (command_absent h tried absent) (try_default-IsEnding h tried failed)
  | inr (p, there) ↦ elim (Bool-cases (is_zero (h.kernel_execve p))) [
    | inl works ↦ rw (command_works h tried p there works) (has_run p tried works failed)
    | inr fails ↦
        rw (command_fails h tried p there fails)
          (has_failed (p ∷ tried) (one_more p tried fails failed))
  ]
]

-- The start of the first program stops at the first one that can be executed: either the program that
-- runs is the last one tried, it could be executed and none of those tried before could, or the
-- kernel panics and none of those tried could be executed.
pub kernel_init-IsEnding :
    (h : InitHost) (ramdisk_command : Option Program) → IsEnding h (kernel_init h ramdisk_command)
unfolding kernel_init
kernel_init-IsEnding h none = try_command-IsEnding h [] no_more
kernel_init-IsEnding h (some p) = elim (Bool-cases (is_zero (h.kernel_execve p))) [
  | inl works ↦ rw works (has_run p [] works no_more)
  | inr fails ↦ rw fails (try_command-IsEnding h (p ∷ []) (one_more p [] fails no_more))
]

-- One of the programs can be executed.
pub data OneWorks (h : InitHost) : List Program → Type 0 where
  works_here :
      (p : Program) (rest : List Program)
      → is_zero (h.kernel_execve p) ≡ true
      → OneWorks h (p ∷ rest)
  works_later : (p : Program) (rest : List Program) → OneWorks h rest → OneWorks h (p ∷ rest)

-- The first of the programs that can be executed.
pub data IsFirst (h : InitHost) (q : Program) : List Program → Type 0 where
  first_here : (rest : List Program) → is_zero (h.kernel_execve q) ≡ true → IsFirst h q (q ∷ rest)
  first_later :
      (p : Program) (rest : List Program)
      → is_zero (h.kernel_execve p) ≡ false
      → IsFirst h q rest
      → IsFirst h q (p ∷ rest)

-- A start that ends by running the first of the programs that can be executed.
abbrev pub RunsFirst : InitHost → List Program → Tried → Type 0
RunsFirst h l (tried, ending) = (q : Program) × (ending ≡ runs q) × IsFirst h q l

-- The program itself, or what comes after it.
runs_now :
    (h : InitHost) (p : Program) (rest before : List Program) (result : Tried)
    → is_zero (h.kernel_execve p) ≡ true
    → result ≡ (before, runs p)
    → RunsFirst h (p ∷ rest) result
runs_now h p rest before result works same = (p, ap (λ r. r.1) same, first_here rest works)

runs_next :
    (h : InitHost) (p : Program) (rest : List Program) (result later : Tried)
    → is_zero (h.kernel_execve p) ≡ false
    → result ≡ later
    → RunsFirst h rest later
    → RunsFirst h (p ∷ rest) result
runs_next h p rest result later fails same (q, ending, first) =
    (q, ap (λ r. r.1) same ∙ ending, first_later p rest fails first)

try_fallbacks-RunsFirst :
    (h : InitHost) (l tried : List Program) → OneWorks h l → RunsFirst h l (try_fallbacks h l tried)
unfolding try_fallbacks
try_fallbacks-RunsFirst h [] tried one = elim one [ ]
try_fallbacks-RunsFirst h (p ∷ rest) tried one = elim (Bool-cases (is_zero (h.kernel_execve p))) [
  | inl works ↦
      runs_now h p rest (p ∷ tried) (try_fallbacks h (p ∷ rest) tried) works (rw works refl)
  | inr fails ↦
      runs_next h p rest (try_fallbacks h (p ∷ rest) tried) (try_fallbacks h rest (p ∷ tried)) fails
        (rw fails refl) (try_fallbacks-RunsFirst h rest (p ∷ tried) (one_of_rest p rest one fails))
]
  where
    one_of_rest :
        (p : Program) (rest : List Program)
        → OneWorks h (p ∷ rest)
        → is_zero (h.kernel_execve p) ≡ false
        → OneWorks h rest
    one_of_rest p rest (works_here _ _ works) fails = absurd (ground arith)
    one_of_rest p rest (works_later _ _ later) fails = later

-- A program that may not be there, before others.
abbrev pub and_then : Option Program → List Program → List Program
and_then none rest = rest
and_then (some p) rest = p ∷ rest

-- The same for a list and a start that are equal.
from_list :
    (h : InitHost) {l l' : List Program} {result result' : Tried}
    → l' ≡ l
    → result' ≡ result
    → RunsFirst h l result
    → RunsFirst h l' result'
from_list h same same_result (q, ending, first) =
    (q, ap (λ r. r.1) same_result ∙ ending, rw same first)

try_default-RunsFirst :
    (h : InitHost) (tried : List Program)
    → OneWorks h fallbacks
    → RunsFirst h (and_then h.default_init fallbacks) (try_default h tried)
try_default-RunsFirst h tried one = elim (Option-cases h.default_init) [
  | inl absent ↦
      from_list h (ap (λ d. and_then d fallbacks) absent) (default_absent h tried absent)
        (try_fallbacks-RunsFirst h fallbacks tried one)
  | inr (p, there) ↦
      from_list h {result = try_default h tried} (ap (λ d. and_then d fallbacks) there) refl
        (elim (Bool-cases (is_zero (h.kernel_execve p))) [
          | inl works ↦
              runs_now h p fallbacks (p ∷ tried) (try_default h tried) works
                (default_works h tried p there works)
          | inr fails ↦
              runs_next h p fallbacks (try_default h tried) (try_fallbacks h fallbacks (p ∷ tried))
                fails (default_fails h tried p there fails)
                (try_fallbacks-RunsFirst h fallbacks (p ∷ tried) one)
        ])
]

-- Where no command was asked for by `init=` and one of the four programs that the kernel falls back on
-- can be executed, the kernel ends up running a program: the first that can be executed of the
-- command of the ramdisk, the default (each if there is one), /sbin/init, /etc/init, /bin/init and
-- /bin/sh.
pub kernel_init-Runs :
    (h : InitHost) (ramdisk_command : Option Program)
    → h.execute_command ≡ none
    → OneWorks h fallbacks
    → RunsFirst h
        (and_then ramdisk_command (and_then h.default_init fallbacks))
        (kernel_init h ramdisk_command)
unfolding kernel_init
kernel_init-Runs h none unasked one =
    rw (command_absent h [] unasked) (try_default-RunsFirst h [] one)
kernel_init-Runs h (some p) unasked one = elim (Bool-cases (is_zero (h.kernel_execve p))) [
  | inl works ↦
      runs_now h p (and_then h.default_init fallbacks) (p ∷ []) (kernel_init h (some p)) works
        (rw works refl)
  | inr fails ↦
      runs_next h p (and_then h.default_init fallbacks) (kernel_init h (some p))
        (try_default h (p ∷ [])) fails (rw (fails, command_absent h (p ∷ []) unasked) refl)
        (try_default-RunsFirst h (p ∷ []) one)
]
