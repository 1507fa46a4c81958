-- ===== src/Base/Sorting.antt =====
-- sort.SliceStable, for an order given by a test that is true if the first comes strictly before.
pub mod Permutes
use mathlib.Core.Bool.{Bool}
use mathlib.Core.List.{List, [], ◌∷◌}
use trading_bot.Base.Tests.{if◌then◌else◌}

module _ {ℓ} {A : Type ℓ} (less : A → A → Bool) where
  -- A value is placed before the first that is not strictly less than it.
  unfoldable pub place : A → List A → List A
  place x [] = x ∷ []
  place x (y ∷ ys) = if less y x then y ∷ place x ys else x ∷ y ∷ ys

  unfoldable pub sort_stable : List A → List A
  sort_stable [] = []
  sort_stable (x ∷ xs) = place x (sort_stable xs)
