-- ===== src/Base.antt =====
-- Names that the other modules share: those of the libraries, and the helpers of the children.
pub mod Tests
pub mod Int
pub mod Lists
pub mod Text
pub mod Float
pub mod Entries
pub mod Statements
pub mod Ensures
pub mod Rational
pub mod Sorting
pub use Tests.*
pub use Int.*
pub use Lists.*
pub use Text.*
unfoldable pub use Text.{is_space, trim_space, is_blank, equal_fold, trim_text, lower_text}
pub use text.Mathlib.Text.{◌==◌ as str_eq}
pub use text.Mathlib.TextEquality.{eq_iff}
pub use text.Mathlib.TextPositions.{eq_refl}
unfoldable pub use Lists.{trim_left, trim_right}
unfoldable pub use Int.{◌+ℤ◌, ◌-ℤ◌, ◌*ℤ◌, neg, quo, rem}
pub use Prim.Native.Nat.{ℕ, zero, suc, ◌+◌, ◌-◌, ◌*◌, ◌/◌, ◌%◌, ◌^◌, ◌≤◌, ◌<◌}
pub use Prim.Native.String.{String}
pub use mathlib.Core.Path.{◌≡◌, refl, sym, ap, ◌∙◌}
pub use mathlib.Core.Logic.{◌≢◌, ◌↔◌, ◌⊎◌, inl, inr}
pub use mathlib.Core.Bool.{Bool, true, false, not, ◌&&◌, ◌||◌}
pub use mathlib.Core.Option.{Option, none, some}
pub use mathlib.Core.List.{List, [], ◌∷◌, ◌++◌}
pub use native.Mathlib.Omega.{arith}
