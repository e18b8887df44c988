-- ===== src/Common.antt =====
-- The names that the other modules share: the libraries', passed on, and those of its children.
-- A test of the Go code is a Boolean; text is compared whole, by the library's `String`.
mod Tests
mod Lists
mod Int
mod Fallible
mod Text
mod Maps
pub use Tests.*
pub use Lists.*
unfoldable pub use Int.*
pub use Fallible.*
unfoldable pub use Text.*
unfoldable pub use Maps.{get, put, delete, delete_if}
pub use Maps.{
  get-put, get-delete, get-delete_if, get-delete_if_cases, All-put, All-get, All-delete,
  All-delete_if,
}
pub use Prim.Native.Nat.{ℕ, zero, suc, ◌+◌, ◌-◌, ◌*◌, ◌/◌, ◌%◌, ◌≤◌, ◌<◌}
pub use Prim.Native.String.{String}
pub use mathlib.Core.Path.{◌≡◌, refl, sym, ap, subst, ◌∙◌}
pub use mathlib.Core.Logic.{◌≢◌, ◌↔◌, ◌⊎◌, inl, inr}
pub use mathlib.Core.Bool.{Bool, true, false, not, ◌&&◌, ◌||◌}
pub use mathlib.Core.Option.{Option, none, some}
pub use mathlib.Core.List.{List, [], ◌∷◌, ◌++◌, map}
pub use native.Mathlib.Omega.{arith}
pub use text.Mathlib.Text.{◌==◌ as str_eq}
pub use text.Mathlib.TextEquality.{eq_iff}
