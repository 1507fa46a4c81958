-- ===== src/Base/Rational.antt =====
-- The rationals of math/big as fractions that are not reduced. What the program reads of a big.Rat
-- (its sign, a comparison, a rounded quotient) is the same for every fraction of one value.
use Prim.Native.Nat.{ℕ, suc, ◌-◌, ◌*◌}
use mathlib.Core.Bool.{Bool}
use trading_bot.Base.Int.{
  ℤ, pos, negsuc, ◌+ℤ◌, ◌-ℤ◌, ◌*ℤ◌, neg, ltb_ℤ, leb_ℤ, magnitude, is_neg, signed,
}
pub mod Order
pub mod Products

-- The value is the numerator over one more than `less`.
pub record Rational : Type 0 where
  pub num : ℤ
  pub less : ℕ

abbrev pub den : Rational → ℕ
den x = suc x.less

-- big.NewRat with a positive denominator, and SetInt.
abbrev pub ratio : ℤ → ℕ → Rational
ratio n d = record { num = n; less = d - 1 }

abbrev pub of_integer : ℤ → Rational
of_integer n = record { num = n; less = 0 }

infixl 65 ◌+ℚ◌ ◌-ℚ◌
infixl 70 ◌*ℚ◌ ◌/ℚ◌
unfoldable pub ◌+ℚ◌ : Rational → Rational → Rational
x +ℚ y = ratio (x.num *ℤ pos (den y) +ℤ y.num *ℤ pos (den x)) (den x * den y)

unfoldable pub ◌-ℚ◌ : Rational → Rational → Rational
x -ℚ y = ratio (x.num *ℤ pos (den y) -ℤ y.num *ℤ pos (den x)) (den x * den y)

unfoldable pub ◌*ℚ◌ : Rational → Rational → Rational
x *ℚ y = ratio (x.num *ℤ y.num) (den x * den y)

-- The sign of a product is that of its factors.
abbrev directed : ℤ → ℤ → ℤ
directed (pos n) z = z
directed (negsuc n) z = neg z

-- big.Rat.Quo, which panics for a divisor of 0.
unfoldable pub ◌/ℚ◌ : Rational → Rational → Rational
x /ℚ y = ratio (directed y.num (x.num *ℤ pos (den y))) (den x * magnitude y.num)

unfoldable pub negated : Rational → Rational
negated x = record x { num = neg x.num }

-- big.Rat.Cmp and big.Rat.Sign, as tests.
unfoldable pub leb_ℚ : Rational → Rational → Bool
leb_ℚ x y = leb_ℤ (x.num *ℤ pos (den y)) (y.num *ℤ pos (den x))

abbrev pub is_positive_ℚ : Rational → Bool
is_positive_ℚ x = ltb_ℤ (pos 0) x.num
