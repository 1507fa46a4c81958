-- ===== src/Base/Rational/Order.antt =====
-- The order of the rationals, and how sums, products and quotients keep it.
use Prim.Native.Nat.{ℕ, suc, ◌+◌, ◌*◌, ◌≤◌, ◌<◌}
use mathlib.Core.Path.{◌≡◌, refl, ap}
use mathlib.Core.Bool.{true, false}
use native.Mathlib.Omega.{arith}
use native.Mathlib.Nat.{mul-le-mul_right, le_of_mul-le-mul_right, zero-lt-suc}
use trading_bot.Base.Tests.{leb→le}
use trading_bot.Base.Int.{ℤ, pos, negsuc, pos_part, neg_part, ◌-ℤ◌, ◌*ℤ◌, +ℤ_parts, -ℤ_parts}
use trading_bot.Base.Rational.{Rational, den, ratio, of_integer, ◌+ℚ◌, ◌-ℚ◌, leb_ℚ}

pub *ℤ-pos_parts :
    (a : ℤ) (n : ℕ)
    → (pos_part (a *ℤ pos n) ≡ pos_part a * n) × (neg_part (a *ℤ pos n) ≡ neg_part a * n)
unfolding ◌*ℤ◌
*ℤ-pos_parts a n = ground arith

infix 50 ◌≤ℚ◌
abbrev pub ◌≤ℚ◌ : Rational → Rational → Type 0
x ≤ℚ y =
    pos_part x.num * den y + neg_part y.num * den x
    ≤ pos_part y.num * den x + neg_part x.num * den y

den-ratio : (n : ℤ) (a b : ℕ) → den (ratio n (suc a * suc b)) ≡ suc a * suc b
den-ratio n a b = omega arith

pub ≤ℚ_refl : (x : Rational) → x ≤ℚ x
≤ℚ_refl x = omega arith

pub ≤ℚ_trans : (x y z : Rational) → x ≤ℚ y → y ≤ℚ z → x ≤ℚ z
≤ℚ_trans x y z h k =
    le_of_mul-le-mul_right {k = den y}
      (omega (arith, mul-le-mul_right (den z) h, mul-le-mul_right (den x) k)) (zero-lt-suc y.less)

pub leb_ℚ→le : (x y : Rational) → leb_ℚ x y ≡ true → x ≤ℚ y
unfolding leb_ℚ
leb_ℚ→le x y h = omega (arith, leb→le _ _ h, *ℤ-pos_parts x.num (den y), *ℤ-pos_parts y.num (den x))

pub leb_ℚ_false : (x y : Rational) → leb_ℚ x y ≡ false → y ≤ℚ x
unfolding leb_ℚ
leb_ℚ_false x y h = ground (arith, *ℤ-pos_parts x.num (den y), *ℤ-pos_parts y.num (den x))

pub sum_parts :
    (x y : Rational)
    → pos_part (x +ℚ y).num + neg_part x.num * den y + neg_part y.num * den x
      ≡ neg_part (x +ℚ y).num + pos_part x.num * den y + pos_part y.num * den x
unfolding ◌+ℚ◌
sum_parts x y = omega (
  arith,
  +ℤ_parts (x.num *ℤ pos (den y)) (y.num *ℤ pos (den x)),
  *ℤ-pos_parts x.num (den y),
  *ℤ-pos_parts y.num (den x),
)

pub difference_parts :
    (x y : Rational)
    → pos_part (x -ℚ y).num + neg_part x.num * den y + pos_part y.num * den x
      ≡ neg_part (x -ℚ y).num + pos_part x.num * den y + neg_part y.num * den x
unfolding ◌-ℚ◌
difference_parts x y = omega (
  arith,
  -ℤ_parts (x.num *ℤ pos (den y)) (y.num *ℤ pos (den x)),
  *ℤ-pos_parts x.num (den y),
  *ℤ-pos_parts y.num (den x),
)

pub sum_den : (x y : Rational) → den (x +ℚ y) ≡ den x * den y
unfolding ◌+ℚ◌
sum_den x y = omega arith

pub difference_den : (x y : Rational) → den (x -ℚ y) ≡ den x * den y
unfolding ◌-ℚ◌
difference_den x y = omega arith

pub +ℚ_mono_right : (u x y : Rational) → x ≤ℚ y → u +ℚ x ≤ℚ u +ℚ y
+ℚ_mono_right u x y h =
    rw (sum_den u x, sum_den u y)
      (omega (
        arith,
        ap (λ (t : ℕ). t * (den u * den y)) (sum_parts u x),
        ap (λ (t : ℕ). t * (den u * den x)) (sum_parts u y),
        mul-le-mul_right (den u * den u) h,
      ))

-- What is subtracted may be added on the other side.
pub +ℚ-le : (u x l : Rational) → x ≤ℚ l -ℚ u → u +ℚ x ≤ℚ l
+ℚ-le u x l h = rw (sum_den u x) (
    le_of_mul-le-mul_right {k = den u}
      (omega (
        arith,
        ap (λ (t : ℕ). t * (den l * den u)) (sum_parts u x),
        ap (λ (t : ℕ). t * den x * den u) (difference_parts l u),
        mul-le-mul_right (den u) (rw (difference_den l u) at h),
      ))
      (zero-lt-suc u.less))

abbrev pub zero_ℚ : Rational
zero_ℚ = of_integer (pos 0)

abbrev pub NonNegative : Rational → Type 0
NonNegative x = neg_part x.num ≡ 0

abbrev pub Positive : Rational → Type 0
Positive x = 0 < pos_part x.num

pub Positive-NonNegative : (x : Rational) → Positive x → NonNegative x
Positive-NonNegative x h = elim_num x.num h
  where
    elim_num : (n : ℤ) → 0 < pos_part n → neg_part n ≡ 0
    elim_num (pos n) h = refl
    elim_num (negsuc n) h = omega arith

pub -ℚ-NonNegative : (x c : Rational) → x ≤ℚ c → NonNegative (c -ℚ x)
unfolding ◌-ℚ◌ ◌-ℤ◌
-ℚ-NonNegative x c h = ground (arith, *ℤ-pos_parts c.num (den x), *ℤ-pos_parts x.num (den c))

pub -ℚ-le : (g x : Rational) → NonNegative x → g -ℚ x ≤ℚ g
-ℚ-le g x h = rw (difference_den g x) (
    omega (
      arith,
      ap (λ (t : ℕ). t * den g) (difference_parts g x),
      ap (λ (t : ℕ). t * (den g * den g)) h,
    ))
