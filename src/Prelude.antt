-- ===== src/Prelude.antt =====
-- The names that every part shares: the libraries', passed on, Boolean tests on the native
-- numbers, byte strings, dictionaries and signed integers.
mod Tests
mod Strings
mod Maps
mod Integers
mod Lists
mod Bytes
mod Big
pub use Tests.*
unfoldable pub use Strings.*
unfoldable pub use Maps.*
unfoldable pub use Integers.*
pub use Lists.*
unfoldable pub use Bytes.*
unfoldable pub use Big.*
pub use Prim.Native.Nat.{ℕ, zero, suc, ◌+◌, ◌-◌, ◌*◌, ◌/◌, ◌%◌, ◌^◌, ◌≤◌, ◌<◌}
pub use Prim.Native.String.{String}
pub use mathlib.Core.Path.{◌≡◌, refl, sym, ap, subst, ◌∙◌}
pub use mathlib.Core.Logic.{◌≢◌, ◌↔◌, ◌⊎◌, inl, inr}
pub use mathlib.Core.Bool.{Bool, true, false, ◌&&◌, ◌||◌, not}
pub use mathlib.Core.Option.{Option, none, some}
pub use mathlib.Core.List.{List, [], ◌∷◌, ◌++◌, map, reverse}
pub use native.Mathlib.Omega.{arith}
