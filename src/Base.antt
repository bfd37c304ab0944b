-- ===== src/Base.antt =====
-- The names that the other modules share: library names passed on, Boolean tests, integers,
-- lists, error numbers, and the monad in which a system call is written.
mod Tests
mod Int
mod Lists
mod Errno
mod Signed
mod Handler
pub use Tests.*
pub use Int.*
pub use Lists.*
pub use Errno.*
pub use Signed.*
pub use Handler.*
pub use Prim.Native.Nat.{ℕ, zero, suc, ◌+◌, ◌-◌, ◌*◌, ◌/◌, ◌%◌, ◌^◌, ◌≤◌, ◌<◌, bit_and, bit_or}
pub use mathlib.Core.Path.{◌≡◌, refl, sym, ap, ◌∙◌}
pub use mathlib.Core.Logic.{◌≢◌, ◌↔◌, ◌⊎◌, inl, inr}
pub use mathlib.Core.Bool.{Bool, true, false, not, ◌&&◌, ◌||◌}
pub use mathlib.Core.Option.{Option, none, some}
pub use mathlib.Core.List.{List, [], ◌∷◌, ◌++◌}
pub use native.Mathlib.Omega.{arith}
