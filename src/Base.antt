-- ===== src/Base.antt =====
-- What every other file shares: the libraries' names passed on, tests, lists, results, and text as
-- a list of bytes. It models no code of its own.
mod Tests
mod Lists
mod Outcome
mod Pigeonhole
pub mod Bytes
pub mod Word
pub mod Int
pub mod Rat
pub mod Hex
pub mod Decimal
pub use Tests.*
pub use Lists.*
pub use Outcome.*
pub use Pigeonhole.{Distinct, length-le_of_Distinct}
pub use Prim.Native.Nat.{ℕ, zero, suc, ◌+◌, ◌-◌, ◌*◌, ◌/◌, ◌%◌, ◌^◌, ◌≤◌, ◌<◌, min, max}
pub use mathlib.Core.Path.{◌≡◌, refl, sym, ap, ◌∙◌, subst}
pub use mathlib.Core.Logic.{◌≢◌, ◌↔◌, ◌⊎◌, inl, inr}
pub use mathlib.Core.Bool.{Bool, true, false, not, ◌&&◌, ◌||◌}
pub use mathlib.Core.Option.{Option, none, some}
pub use mathlib.Core.List.{List, [], ◌∷◌, ◌++◌, map, append_assoc, append-nil}
pub use native.Mathlib.Omega.{arith}
