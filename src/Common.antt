-- ===== src/Common.antt =====
-- The names that every module shares: those of the libraries, passed on, the tests on numbers and
-- texts, lists measured by native numbers, and dictionaries with number keys.
mod Tests
mod Lists
mod Maps
mod Results
pub mod Sort
pub mod Counting
pub mod Sets
pub use Tests.*
unfoldable pub use Tests.{string_discrete}
pub use Lists.*
pub use Maps.*
unfoldable pub use Maps.{lookup, insert, remove}
pub use Results.*
pub use Prim.Native.Nat.{ℕ, zero, suc, ◌+◌, ◌-◌, ◌*◌, ◌/◌, ◌%◌, ◌^◌, ◌≤◌, ◌<◌, min, max}
pub use Prim.Native.String.{String}
pub use mathlib.Core.Path.{◌≡◌, refl, sym, ap, ◌∙◌, subst}
pub use mathlib.Core.Logic.{◌≢◌, ◌↔◌, ◌⊎◌, inl, inr, ite, if_pos, if_neg}
pub use mathlib.Core.Bool.{Bool, true, false, not, ◌&&◌, ◌||◌}
pub use mathlib.Core.Option.{Option, none, some}
pub use mathlib.Core.List.{List, [], ◌∷◌, ◌++◌, map}
pub use native.Mathlib.Omega.{arith}
unfoldable pub use native.Mathlib.Decide.{dec_lt, dec_le, ℕ_discrete}
