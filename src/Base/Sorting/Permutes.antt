-- ===== src/Base/Sorting/Permutes.antt =====
-- Sorting keeps the values and their number, here seen through a function of them.
use mathlib.Core.Logic.{inl, inr}
use mathlib.Core.Bool.{Bool}
use mathlib.Core.List.{List, [], ◌∷◌, map, Perm}
use mathlib.Core.List.Perm
use trading_bot.Base.Tests.{Bool-cases}
use trading_bot.Base.Sorting.{place, sort_stable}

module _ {ℓ κ} {A : Type ℓ} {B : Type κ} (less : A → A → Bool) (f : A → B) where
  place-Perm : (x : A) (ys : List A) → Perm (map f (place less x ys)) (f x ∷ map f ys)
  unfolding place
  place-Perm x [] = Perm.refl (f x ∷ [])
  place-Perm x (y ∷ ys) = elim (Bool-cases (less y x)) [
    | inl p ↦
        rw (p, place)
          (Perm.trans (Perm.cons (f y) (place-Perm x ys)) (Perm.swap (f x) (f y) (map f ys)))
    | inr p ↦ rw (p, place) (Perm.refl (f x ∷ f y ∷ map f ys))
  ]

  pub sort_stable-Perm : (xs : List A) → Perm (map f (sort_stable less xs)) (map f xs)
  unfolding sort_stable
  sort_stable-Perm [] = Perm.refl []
  sort_stable-Perm (x ∷ xs) =
      Perm.trans (place-Perm x (sort_stable less xs)) (Perm.cons (f x) (sort_stable-Perm xs))
