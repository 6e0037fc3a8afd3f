-- ===== src/Prelude.antt =====
-- Names shared by every module: the libraries', passed on, and those of the children below.
mod Tests
mod Lists
mod Raise
mod Rows
mod Text
pub use Tests.*
unfoldable pub use Text.*
pub use Rows.*
pub use Lists.*
pub use Raise.{
  Result, ok, err, is_ok, guard, guard-ok, ◌>>=◌, ◌>>◌, Ensures, Ensures-ok, Ensures-bind,
  Ensures-map, Ensures-guard, Ensures-guard3, Result-cases, err≢ok, ok_injective, bind-ok,
}
pub use Prim.Native.Nat.{ℕ, zero, suc, ◌+◌, ◌-◌, ◌*◌, ◌/◌, ◌%◌, ◌^◌, ◌≤◌, ◌<◌, min, max}
pub use Prim.Native.String.{String}
pub use mathlib.Core.Path.{◌≡◌, refl, sym, ap, ◌∙◌, subst}
pub use mathlib.Core.Logic.{◌≢◌, ◌↔◌, ◌⊎◌, inl, inr}
pub use mathlib.Core.Bool.{Bool, true, false, not, ◌&&◌, ◌||◌}
pub use mathlib.Core.Option.{Option, none, some}
pub use mathlib.Core.List.{List, [], ◌∷◌, ◌++◌, map}
pub use native.Mathlib.Omega.{arith}
pub use text.Mathlib.Text.{◌==◌ as str_eq}
pub use text.Mathlib.TextEquality.{eq_iff}
pub use text.Mathlib.TextPositions.{eq_refl}
