-- ===== src/Base.antt =====
-- Names that every module shares: the libraries', passed on, Boolean tests, string-keyed maps and
-- string lists.
mod Tests
mod Dicts
mod DictLaws
mod Texts
mod Lists
mod Splits
pub mod Sorting
pub use Tests.*
unfoldable pub use Dicts.*
pub use DictLaws.*
unfoldable pub use Texts.*
pub use Lists.*
unfoldable pub use Splits.{single, cut, split, has_separator, joined, clean}
pub use Splits.{joined-split, clean-split, split-clean, split-append}
pub use Prim.Native.Nat.{ℕ, zero, suc, ◌+◌, ◌-◌, ◌*◌, ◌%◌, ◌^◌, ◌≤◌, ◌<◌}
pub use Prim.Native.String.{String, ◌++◌ as str_append}
pub use mathlib.Core.Path.{◌≡◌, refl, sym, ap, subst, ◌∙◌, ◌≡⟨◌⟩◌, ◌∎}
pub use mathlib.Core.Logic.{◌≢◌, ◌↔◌, ◌⊎◌, inl, inr}
pub use mathlib.Core.Bool.{Bool, true, false, not, ◌&&◌, ◌||◌, false≢true}
pub use mathlib.Core.Option.{Option, none, some, none-ne-some}
pub use mathlib.Core.List.{List, [], ◌∷◌, ◌++◌, map}
pub use native.Mathlib.Omega.{arith}
pub use text.Mathlib.Text.{◌==◌}
pub use text.Mathlib.TextEquality.{eq_iff}
pub use text.Mathlib.TextPositions.{eq_refl}
