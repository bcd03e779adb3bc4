-- ===== src/Base.antt =====
-- The names that the other modules share: the libraries', passed on, and those of the children.
mod Tests
mod Texts
mod Lists
mod Maps
mod Results
mod Int
mod Decimal
mod Sort
mod Spaces
mod Actions
mod Keeping
pub use Tests.*
unfoldable pub use Texts.*
pub use Lists.*
unfoldable pub use Maps.*
unfoldable pub use Results.*
pub use Int.*
unfoldable pub use Decimal.*
unfoldable pub use Sort.*
unfoldable pub use Spaces.*
unfoldable pub use Actions.*
pub use Keeping.*
pub use Prim.Native.Nat.{ℕ, zero, suc, ◌+◌, ◌-◌, ◌*◌, ◌/◌, ◌%◌, ◌^◌, ◌≤◌, ◌<◌}
pub use mathlib.Core.Path.{◌≡◌, refl, sym, ap, ◌∙◌, subst}
pub use mathlib.Core.Logic.{◌≢◌, ◌↔◌, ◌⊎◌, inl, inr}
pub use mathlib.Core.Bool.{Bool, true, false, ◌&&◌, ◌||◌, not}
pub use mathlib.Core.Option.{Option, none, some}
pub use mathlib.Core.List.{List, [], ◌∷◌, ◌++◌, map}
pub use native.Mathlib.Omega.{arith}
