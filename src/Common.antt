-- ===== src/Common.antt =====
-- The names that the modules share: the libraries' names, passed on, and those of the children.
mod Tests
mod Lists
mod Texts
mod Dicts
pub use Tests.*
pub use Lists.*
pub use Texts.*
pub use Dicts.*
unfoldable pub use Texts.{text_eq, text_lt}
unfoldable pub use Dicts.{get, put}
pub use Prim.Native.Nat.{ℕ, zero, suc, ◌+◌, ◌-◌, ◌*◌, ◌/◌, ◌%◌, ◌^◌, ◌≤◌, ◌<◌, min}
pub use Prim.Native.String.{String}
pub use mathlib.Core.Path.{◌≡◌, refl, sym, ap, ◌∙◌}
pub use mathlib.Core.Logic.{◌≢◌, ◌↔◌, ◌⊎◌, inl, inr}
pub use mathlib.Core.Bool.{Bool, true, false, not, ◌&&◌, ◌||◌}
pub use mathlib.Core.Option.{Option, none, some}
pub use mathlib.Core.List.{List, [], ◌∷◌, ◌++◌, map}
pub use native.Mathlib.Omega.{arith}
