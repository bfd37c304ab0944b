-- ===== src/Counters/Laws.antt =====
-- What the counters count.
use so2_202003745_vd.Base.{
  ℕ, ◌+◌, ◌≡◌, List, [], ◌∷◌, some, Bool, true, false, pos, if◌then◌else◌, arith,
}
use so2_202003745_vd.Counters.{
  Counters, SystemCall, system_call, at_boot, luis_track_syscall_usage, sys_open, openat,
  compat_open, compat_openat, creat, read, write, clone,
}

-- the system calls that come to `do_sys_open`
abbrev pub opens : SystemCall → Bool
opens sys_open = true
opens openat = true
opens compat_open = true
opens compat_openat = true
opens creat = true
opens _ = false

abbrev pub is_read : SystemCall → Bool
is_read read = true
is_read _ = false

abbrev pub is_write : SystemCall → Bool
is_write write = true
is_write _ = false

abbrev pub is_clone : SystemCall → Bool
is_clone clone = true
is_clone _ = false

abbrev pub count : (SystemCall → Bool) → List SystemCall → ℕ
count p [] = 0
count p (c ∷ cs) = (if p c then 1 else 0) + count p cs

-- the counters after a history of system calls
unfoldable pub after : List SystemCall → Counters → Counters
after [] c = c
after (s ∷ rest) c = after rest (system_call s c)

-- How the four counters move on a call.
abbrev pub Moves : Counters → Counters → ℕ → ℕ → ℕ → ℕ → Type 0
Moves c c' o r w f =
    (c'.open_call_counter ≡ c.open_call_counter + o)
    × (c'.read_call_counter ≡ c.read_call_counter + r)
    × (c'.write_call_counter ≡ c.write_call_counter + w)
    × (c'.fork_call_counter ≡ c.fork_call_counter + f)

one : Bool → ℕ
one b = if b then 1 else 0

system_call-Moves :
    (s : SystemCall) (c : Counters)
    → Moves c
        (system_call s c)
        (one (opens s))
        (one (is_read s))
        (one (is_write s))
        (one (is_clone s))
unfolding system_call one
system_call-Moves s c = ground arith

after-Moves :
    (l : List SystemCall) (c : Counters)
    → Moves c (after l c) (count opens l) (count is_read l) (count is_write l) (count is_clone l)
unfolding after one
after-Moves [] c = omega arith
after-Moves (s ∷ rest) c = omega (arith, system_call-Moves s c, after-Moves rest (system_call s c))

-- After any history of system calls since boot, a report that is copied out states how many of them
-- came to `do_sys_open`, and how many were `read`, `write` and `clone`.
pub track_counts :
    (l : List SystemCall)
    → luis_track_syscall_usage (after l at_boot) true ≡ (
      pos 0,
      some (record {
        counter_open = count opens l;
        counter_read = count is_read l;
        counter_write = count is_write l;
        counter_fork = count is_clone l;
      }),
    )
unfolding luis_track_syscall_usage
track_counts l = ground (arith, after-Moves l at_boot)

-- `fork`, `vfork` and `clone3` are no part of the count of forks: in a history without `clone` it
-- stays where it was.
pub forks_uncounted :
    (l : List SystemCall) (c : Counters)
    → count is_clone l ≡ 0
    → (after l c).fork_call_counter ≡ c.fork_call_counter
forks_uncounted l c h = omega (arith, after-Moves l c)
