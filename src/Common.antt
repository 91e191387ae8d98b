-- ===== src/Common.antt =====
-- The names that the other modules share: the libraries', passed on, and those of the children.
mod Tests
pub mod Results
pub mod Actions
mod Lists
mod Rows
mod Ordering
mod Dicts
pub use Tests.*
pub use Results.{
  Result, ok, err, or_raise, or_raise-eq-ok, raise_if, Result-cases, >>=-eq-ok, raise_if-eq-ok,
}
pub use Actions.{Action, pure, raise, gets, reads, lift, modify, atomic, >>=-post}
pub use Lists.*
unfoldable pub use Rows.*
unfoldable pub use Ordering.*
unfoldable pub use Dicts.*
pub use Prim.Native.Nat.{ℕ, zero, suc, ◌+◌, ◌-◌, ◌*◌, ◌≤◌, ◌<◌}
pub use Prim.Native.String.{String}
pub use mathlib.Core.Path.{◌≡◌, refl, sym, ap, ◌∙◌}
pub use mathlib.Core.Logic.{◌≢◌, ◌↔◌, ◌⊎◌, inl, inr}
pub use mathlib.Core.Bool.{Bool, true, false, not, ◌&&◌, ◌||◌}
pub use mathlib.Core.Option.{Option, none, some}
pub use mathlib.Core.List.{List, [], ◌∷◌, ◌++◌, map}
pub use native.Mathlib.Omega.{arith}
pub use text.Mathlib.Text.{◌==◌ as str_eq}
pub use text.Mathlib.TextEquality.{eq_iff}
