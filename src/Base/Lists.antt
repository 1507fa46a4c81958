-- ===== src/Base/Lists.antt =====
-- Lists over the native numbers: lengths, searches and the trimming loops of package strings.
use Prim.Native.Nat.{ℕ, zero, suc, ◌+◌, ◌-◌}
use mathlib.Core.Path.{◌≡◌, refl}
use mathlib.Core.Bool.{Bool, true, false, ◌&&◌, ◌||◌}
use mathlib.Core.List.{List, [], ◌∷◌, ◌++◌}
use native.Mathlib.Omega.{arith}
use trading_bot.Base.Tests.{if◌then◌else◌}

module _ {ℓ} {A : Type ℓ} where
  abbrev pub length : List A → ℕ
  length [] = 0
  length (x ∷ xs) = suc (length xs)

  abbrev pub replicate : ℕ → A → List A
  replicate zero a = []
  replicate (suc n) a = a ∷ replicate n a

  abbrev pub take : ℕ → List A → List A
  take n [] = []
  take zero (x ∷ xs) = []
  take (suc n) (x ∷ xs) = x ∷ take n xs

  abbrev pub drop : ℕ → List A → List A
  drop n [] = []
  drop zero (x ∷ xs) = x ∷ xs
  drop (suc n) (x ∷ xs) = drop n xs

  abbrev pub is_nil : List A → Bool
  is_nil [] = true
  is_nil (x ∷ xs) = false

  abbrev pub all : (A → Bool) → List A → Bool
  all p [] = true
  all p (x ∷ xs) = p x && all p xs

  abbrev pub any : (A → Bool) → List A → Bool
  any p [] = false
  any p (x ∷ xs) = p x || any p xs

  -- strings.TrimLeft and strings.TrimRight with a test on characters.
  unfoldable pub trim_left : (A → Bool) → List A → List A
  trim_left p [] = []
  trim_left p (x ∷ xs) = let rest = trim_left p xs in if p x then rest else x ∷ xs

  unfoldable pub trim_right : (A → Bool) → List A → List A
  trim_right p [] = []
  trim_right p (x ∷ xs) = let rest = trim_right p xs in if p x && is_nil rest then [] else x ∷ rest

  pub length-append : (xs ys : List A) → length (xs ++ ys) ≡ length xs + length ys
  length-append [] ys = omega arith
  length-append (x ∷ xs) ys = omega (arith, length-append xs ys)

  pub append_nil : (xs : List A) → xs ++ [] ≡ xs
  append_nil [] = refl
  append_nil (x ∷ xs) = rw (append_nil xs)

  pub append_assoc : (xs ys zs : List A) → xs ++ ys ++ zs ≡ xs ++ (ys ++ zs)
  append_assoc [] ys zs = refl
  append_assoc (x ∷ xs) ys zs = rw (append_assoc xs ys zs)

  pub take-drop : (n : ℕ) (xs : List A) → take n xs ++ drop n xs ≡ xs
  take-drop n [] = refl
  take-drop zero (x ∷ xs) = refl
  take-drop (suc n) (x ∷ xs) = rw (take-drop n xs)

  pub length-drop : (n : ℕ) (xs : List A) → length (drop n xs) ≡ length xs - n
  length-drop n [] = omega arith
  length-drop zero (x ∷ xs) = omega arith
  length-drop (suc n) (x ∷ xs) = omega (arith, length-drop n xs)

  pub all-append : (p : A → Bool) (xs ys : List A) → all p (xs ++ ys) ≡ (all p xs && all p ys)
  all-append p [] ys = refl
  all-append p (x ∷ xs) ys = ground (arith, all-append p xs ys)

  -- Where no element passes the test, nothing is trimmed.
  pub trim_left_none : (p : A → Bool) (xs : List A) → any p xs ≡ false → trim_left p xs ≡ xs
  unfolding trim_left
  trim_left_none p [] h = refl
  trim_left_none p (x ∷ xs) h = ground arith

  pub trim_right_none : (p : A → Bool) (xs : List A) → any p xs ≡ false → trim_right p xs ≡ xs
  unfolding trim_right
  trim_right_none p [] h = refl
  trim_right_none p (x ∷ xs) h = ground (arith, trim_right_none p xs)

  -- Trimming stops at the last element that does not pass.
  pub trim_right-append :
      (p : A → Bool) (xs ys : List A) (y : A)
      → p y ≡ false
      → trim_right p (xs ++ y ∷ ys) ≡ xs ++ y ∷ trim_right p ys
  unfolding trim_right
  trim_right-append p [] ys y h = rw h
  trim_right-append p (x ∷ xs) ys y h = rw (trim_right-append p xs ys y h) (not_nil x xs)
    where
      not_nil :
          (x : A) (xs : List A)
          → (if p x && is_nil (xs ++ y ∷ trim_right p ys)
              then []
              else x ∷ xs ++ y ∷ trim_right p ys)
            ≡ x ∷ xs ++ y ∷ trim_right p ys
      not_nil x [] = ground arith
      not_nil x (z ∷ zs) = ground arith

  pub trim_right-drop :
      (p : A → Bool) (xs ys : List A) → all p ys ≡ true → trim_right p (xs ++ ys) ≡ trim_right p xs
  unfolding trim_right
  trim_right-drop p [] [] h = refl
  trim_right-drop p [] (y ∷ ys) h = ground (arith, trim_right-drop p [] ys)
  trim_right-drop p (x ∷ xs) ys h = rw (trim_right-drop p xs ys h)

  pub any-append_one :
      (p : A → Bool) (xs : List A) (y : A) → any p (xs ++ y ∷ []) ≡ (any p xs || p y)
  any-append_one p [] y = ground arith
  any-append_one p (x ∷ xs) y = ground (arith, any-append_one p xs y)
