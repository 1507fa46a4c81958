-- ===== src/Base/Rational/Products.antt =====
-- How products and quotients of rationals keep the order.
use Prim.Native.Nat.{ℕ, zero, suc, ◌+◌, ◌*◌, ◌/◌, ◌≤◌, ◌<◌}
use mathlib.Core.Path.{◌≡◌, refl, ap}
use mathlib.Core.Bool.{true}
use native.Mathlib.Omega.{arith}
use native.Mathlib.Nat.{
  mul-pos, div-mul-le_self, mul-le-mul_right, le_of_mul-le-mul_right, zero-lt-suc,
}
use trading_bot.Base.Int.{ℤ, pos, pos_part, neg_part, ◌*ℤ◌, quo, eq_of_parts}
use trading_bot.Base.Rational.{
  Rational, den, ratio, of_integer, ◌+ℚ◌, ◌-ℚ◌, ◌*ℚ◌, ◌/ℚ◌, leb_ℚ, is_positive_ℚ,
}
use trading_bot.Base.Rational.Order.{
  ◌≤ℚ◌, NonNegative, Positive, Positive-NonNegative, *ℤ-pos_parts, sum_parts, sum_den,
  difference_parts, difference_den,
}

pub product_parts :
    (x u : Rational)
    → NonNegative u
    → (pos_part (x *ℚ u).num ≡ pos_part x.num * pos_part u.num)
      × (neg_part (x *ℚ u).num ≡ neg_part x.num * pos_part u.num)
unfolding ◌*ℚ◌ ◌*ℤ◌
product_parts x u h = ground arith

pub product_den : (x y : Rational) → den (x *ℚ y) ≡ den x * den y
unfolding ◌*ℚ◌
product_den x y = omega arith

pub *ℚ-NonNegative : (x y : Rational) → NonNegative x → NonNegative y → NonNegative (x *ℚ y)
*ℚ-NonNegative x y h k = omega (arith, product_parts x y k, ap (λ (t : ℕ). t * pos_part y.num) h)

pub *ℚ_mono_left : (x y u : Rational) → NonNegative u → x ≤ℚ y → x *ℚ u ≤ℚ y *ℚ u
*ℚ_mono_left x y u n h =
    rw
      (
        product_den x u,
        product_den y u,
        (product_parts x u n).0,
        (product_parts x u n).1,
        (product_parts y u n).0,
        (product_parts y u n).1,
      )
      (omega (arith, mul-le-mul_right (pos_part u.num * den u) h))

pub quotient_num : (r u : Rational) → Positive u → (r /ℚ u).num ≡ r.num *ℤ pos (den u)
unfolding ◌/ℚ◌
quotient_num r u p = ground arith

pub quotient_den : (r u : Rational) → Positive u → den (r /ℚ u) ≡ den r * pos_part u.num
unfolding ◌/ℚ◌
quotient_den r u p = ground (arith, mul-le-mul_right (pos_part u.num) (zero-lt-suc r.less))

-- A quotient by a positive number, multiplied by it.
pub /ℚ-mul : (q r u : Rational) → Positive u → q ≤ℚ r /ℚ u → q *ℚ u ≤ℚ r
/ℚ-mul q r u p h =
    (let parts = product_parts q u (Positive-NonNegative u p) in
      rw (product_den q u, parts.0, parts.1)
        (omega (
          arith,
          rw
              (
                quotient_den r u p,
                quotient_num r u p,
                (*ℤ-pos_parts r.num (den u)).0,
                (*ℤ-pos_parts r.num (den u)).1,
              )
              at h,
        )))

pub *ℚ-Positive : (x y : Rational) → Positive x → Positive y → Positive (x *ℚ y)
*ℚ-Positive x y h k = rw (product_parts x y (Positive-NonNegative y k)).0 (mul-pos h k)

-- A sum with a part of itself is a multiple, in 1/10000.
pub +ℚ_part-le :
    (x y : Rational) (f : ℕ)
    → NonNegative y
    → x *ℚ y +ℚ x *ℚ y *ℚ ratio (pos f) 10000 ≤ℚ x *ℚ (y *ℚ ratio (pos (10000 + f)) 10000)
+ℚ_part-le x y f h =
    rw
      (
        sum_den (x *ℚ y) (x *ℚ y *ℚ ratio (pos f) 10000),
        product_den (x *ℚ y) (ratio (pos f) 10000),
        product_den x (y *ℚ ratio (pos (10000 + f)) 10000),
        product_den y (ratio (pos (10000 + f)) 10000),
        (product_parts x (y *ℚ ratio (pos (10000 + f)) 10000) nonnegative).0,
        (product_parts x (y *ℚ ratio (pos (10000 + f)) 10000) nonnegative).1,
        (product_parts y (ratio (pos (10000 + f)) 10000) refl).0,
        product_den x y,
      )
      (omega (
        arith,
        ap (λ (t : ℕ). t * (den x * den y * 10000))
            (rw
              (
                product_den (x *ℚ y) (ratio (pos f) 10000),
                product_den x y,
                (product_parts (x *ℚ y) (ratio (pos f) 10000) refl).0,
                (product_parts (x *ℚ y) (ratio (pos f) 10000) refl).1,
                (product_parts x y h).0,
                (product_parts x y h).1,
              )
              at (sum_parts (x *ℚ y) (x *ℚ y *ℚ ratio (pos f) 10000))),
      ))
  where
    nonnegative : NonNegative (y *ℚ ratio (pos (10000 + f)) 10000)
    nonnegative = *ℚ-NonNegative y (ratio (pos (10000 + f)) 10000) h refl

pub is_positive_ℚ-Positive : (x : Rational) → is_positive_ℚ x ≡ true → Positive x
is_positive_ℚ-Positive x h = ground arith

pub quo_parts : (a : ℤ) (n : ℕ) → neg_part a ≡ 0 → quo a (pos n) ≡ pos (pos_part a / n)
unfolding quo
quo_parts a n h = ground arith

pub quotient_floor :
    (v s : Rational)
    → NonNegative v
    → Positive s
    → quo (v /ℚ s).num (pos (den (v /ℚ s)))
      ≡ pos (pos_part v.num * den s / (den v * pos_part s.num))
quotient_floor v s h k =
    rw
      (
        quotient_den v s k,
        quotient_num v s k,
        quo_parts (v.num *ℤ pos (den s)) (den v * pos_part s.num)
            (omega (arith, *ℤ-pos_parts v.num (den s), ap (λ (t : ℕ). t * den s) h)),
        (*ℤ-pos_parts v.num (den s)).0,
      )
      refl

-- The whole part of a quotient of positives, multiplied by the divisor.
pub floor-le :
    (v s : Rational)
    → NonNegative v
    → Positive s
    → of_integer (quo (v /ℚ s).num (pos (den (v /ℚ s)))) *ℚ s ≤ℚ v
floor-le v s h k =
    rw (quotient_floor v s h k)
      (bounded _ (div-mul-le_self (pos_part v.num * den s) (den v * pos_part s.num)))
  where
    bounded :
        (w : ℕ)
        → w * (den v * pos_part s.num) ≤ pos_part v.num * den s
        → of_integer (pos w) *ℚ s ≤ℚ v
    bounded w b =
        rw
          (
            product_den (of_integer (pos w)) s,
            (product_parts (of_integer (pos w)) s (Positive-NonNegative s k)).0,
            (product_parts (of_integer (pos w)) s (Positive-NonNegative s k)).1,
          )
          (omega (arith, ap (λ (t : ℕ). t * den s) h))

pub *ℚ_assoc : (x y z : Rational) → NonNegative y → NonNegative z → x *ℚ y *ℚ z ≡ x *ℚ (y *ℚ z)
*ℚ_assoc x y z h k = λ i. record { num = nums i; less = dens i }
  where
    nums : (x *ℚ y *ℚ z).num ≡ (x *ℚ (y *ℚ z)).num
    nums = eq_of_parts _ _ (
        rw
          (
            (product_parts (x *ℚ y) z k).0,
            (product_parts (x *ℚ y) z k).1,
            (product_parts x y h).0,
            (product_parts x y h).1,
            (product_parts x (y *ℚ z) (*ℚ-NonNegative y z h k)).0,
            (product_parts x (y *ℚ z) (*ℚ-NonNegative y z h k)).1,
            (product_parts y z k).0,
          )
          (omega arith))

    dens : (x *ℚ y *ℚ z).less ≡ (x *ℚ (y *ℚ z)).less
    dens = omega (
      arith,
      product_den (x *ℚ y) z,
      ap (λ (t : ℕ). t * den z) (product_den x y),
      product_den x (y *ℚ z),
      ap (λ (t : ℕ). den x * t) (product_den y z),
    )

-- What is added may be subtracted on the other side.
pub le--ℚ : (u x l : Rational) → u +ℚ x ≤ℚ l → x ≤ℚ l -ℚ u
le--ℚ u x l h = rw (difference_den l u) (
    le_of_mul-le-mul_right {k = den u}
      (omega (
        arith,
        ap (λ (t : ℕ). t * (den l * den u)) (sum_parts u x),
        ap (λ (t : ℕ). t * den x * den u) (difference_parts l u),
        mul-le-mul_right (den u) (rw (sum_den u x) at h),
      ))
      (zero-lt-suc u.less))

pub mul-le-/ℚ : (q r u : Rational) → Positive u → q *ℚ u ≤ℚ r → q ≤ℚ r /ℚ u
mul-le-/ℚ q r u p h =
    (let parts = product_parts q u (Positive-NonNegative u p) in
      rw
        (
          quotient_den r u p,
          quotient_num r u p,
          (*ℤ-pos_parts r.num (den u)).0,
          (*ℤ-pos_parts r.num (den u)).1,
        )
        (omega (arith, rw (product_den q u, parts.0, parts.1) at h)))

pub Positive-le : (x y : Rational) → Positive x → x ≤ℚ y → Positive y
Positive-le x y p h = left_pos (pos_part y.num) (den x) (
    omega
      (arith, mul-pos p (zero-lt-suc y.less), ap (λ (t : ℕ). t * den y) (Positive-NonNegative x p)))
  where
    left_pos : (a b : ℕ) → 0 < a * b → 0 < a
    left_pos zero b h = absurd (omega arith)
    left_pos (suc a) b h = omega arith

pub le→leb_ℚ : (x y : Rational) → x ≤ℚ y → leb_ℚ x y ≡ true
unfolding leb_ℚ
le→leb_ℚ x y h = ground (arith, *ℤ-pos_parts x.num (den y), *ℤ-pos_parts y.num (den x))
