-- ===== src/Accounting/Rounding.antt =====
-- What the operations of internal/accounting/decimal.go compute: sums as integers, and rounding to
-- the nearest unit with ties away from zero.
use trading_bot.Base.{
  ℕ, zero, suc, ◌+◌, ◌*◌, ◌/◌, ◌%◌, ◌≤◌, ◌<◌, ◌≡◌, ◌≢◌, refl, Bool, true, false, some,
  if◌then◌else◌, arith, leb, ℤ, pos, negsuc, ◌+ℤ◌, ◌-ℤ◌, ◌*ℤ◌, is_neg, differ, signed, magnitude,
  Bool-cases, ◌⊎◌, inl, inr,
}
use trading_bot.Accounting.Decimal.{is_zero, Decimal, integer, units, round_quotient, mul_div}

-- The magnitude that rounding gives: the quotient, plus one where the remainder is half or more.
abbrev pub round_half_up : ℕ → ℕ → ℕ
round_half_up m e = if leb e (2 * (m % e)) then suc (m / e) else m / e

magnitude-signed : (b : Bool) (n : ℕ) → magnitude (signed b n) ≡ n
magnitude-signed true n = ground arith
magnitude-signed false n = omega arith

twice-rem : (b : Bool) (m : ℕ) → magnitude (signed b m *ℤ pos 2) ≡ 2 * m
unfolding ◌*ℤ◌
twice-rem true m = ground arith
twice-rem false m = ground arith

pub round_quotient-signed :
    (n d : ℤ)
    → d ≢ pos 0
    → round_quotient n d
      ≡ signed (differ (is_neg n) (is_neg d)) (round_half_up (magnitude n) (magnitude d))
unfolding round_quotient ◌*ℤ◌ ◌+ℤ◌ ◌-ℤ◌
round_quotient-signed (pos zero) (pos zero) h = absurd (h refl)
round_quotient-signed (pos zero) (pos (suc d)) h = ground arith
round_quotient-signed (pos (suc n)) (pos zero) h = absurd (h refl)
round_quotient-signed (pos (suc n)) (pos (suc d)) h = ground arith
round_quotient-signed (pos zero) (negsuc d) h = ground arith
round_quotient-signed (pos (suc n)) (negsuc d) h = ground arith
round_quotient-signed (negsuc n) (pos zero) h = absurd (h refl)
round_quotient-signed (negsuc n) (pos (suc d)) h = ground arith
round_quotient-signed (negsuc n) (negsuc d) h = ground arith

-- Between two multiples of `e` the nearer one is taken, and the upper one where they tie.
round_half_up_bounds :
    (m e : ℕ)
    → 0 < e
    → (2 * (round_half_up m e * e) ≤ 2 * m + e) × (2 * m < 2 * (round_half_up m e * e) + e)
round_half_up_bounds m e h = elim (Bool-cases (leb e (2 * (m % e)))) [
  | inl up ↦ rw up (grind arith)
  | inr down ↦ rw down (grind arith)
]

magnitude-pos : (d : ℤ) → d ≢ pos 0 → 0 < magnitude d
magnitude-pos (pos zero) h = absurd (h refl)
magnitude-pos (pos (suc n)) h = omega arith
magnitude-pos (negsuc n) h = omega arith

-- The distance of a signed multiple of `d` from `n`, in magnitudes.
error_lem :
    (n d : ℤ) (q : ℕ)
    → let e = signed (differ (is_neg n) (is_neg d)) q *ℤ d -ℤ n in
      (magnitude e + magnitude n ≡ q * magnitude d) ⊎ (magnitude e + q * magnitude d ≡ magnitude n)
unfolding ◌*ℤ◌ ◌-ℤ◌
error_lem (pos n) (pos d) q = ground arith
error_lem (pos n) (negsuc d) zero = ground arith
error_lem (pos n) (negsuc d) (suc q) = ground arith
error_lem (negsuc n) (pos d) zero = ground arith
error_lem (negsuc n) (pos d) (suc q) = ground arith
error_lem (negsuc n) (negsuc d) q = ground arith

-- Rounding is to the nearest multiple of the divisor, and a tie goes away from zero: twice the
-- error is at most the divisor, and where they are equal the result is the larger in magnitude.
pub round_quotient_nearest :
    (n d : ℤ)
    → d ≢ pos 0
    → let q = round_quotient n d in
      (2 * magnitude (q *ℤ d -ℤ n) ≤ magnitude d)
      × (2 * magnitude (q *ℤ d -ℤ n) ≡ magnitude d → magnitude n < magnitude q * magnitude d)
round_quotient_nearest n d h =
    let e = error_lem n d (round_half_up (magnitude n) (magnitude d)) in
    let b = round_half_up_bounds (magnitude n) (magnitude d) (magnitude-pos d h) in
    rw (round_quotient-signed n d h) (rw magnitude-signed (ground arith))

round_half_up-mul : (m e : ℕ) → 0 < e → round_half_up (m * e) e ≡ m
round_half_up-mul m e h =
    let p : m * e % e ≡ 0 = grind arith in
    let q : m * e / e ≡ m = grind arith in rw (p, q) (ground arith)

magnitude-* : (a b : ℤ) → magnitude (a *ℤ b) ≡ magnitude a * magnitude b
unfolding ◌*ℤ◌
magnitude-* (pos a) (pos b) = ground arith
magnitude-* (pos zero) (negsuc b) = ground arith
magnitude-* (pos (suc a)) (negsuc b) = ground arith
magnitude-* (negsuc a) (pos zero) = ground arith
magnitude-* (negsuc a) (pos (suc b)) = ground arith
magnitude-* (negsuc a) (negsuc b) = ground arith

signed-* : (a b : ℤ) → b ≢ pos 0 → signed (differ (is_neg (a *ℤ b)) (is_neg b)) (magnitude a) ≡ a
unfolding ◌*ℤ◌
signed-* (pos zero) (pos b) h = ground arith
signed-* (pos (suc a)) (pos b) h = ground arith
signed-* (pos zero) (negsuc b) h = ground arith
signed-* (pos (suc a)) (negsuc b) h = ground arith
signed-* (negsuc a) (pos zero) h = absurd (h refl)
signed-* (negsuc a) (pos (suc b)) h = ground arith
signed-* (negsuc a) (negsuc b) h = ground arith

pub round_quotient-* : (a b : ℤ) → b ≢ pos 0 → round_quotient (a *ℤ b) b ≡ a
round_quotient-* a b h = rw (round_quotient-signed (a *ℤ b) b h) (
    rw (magnitude-* a b, round_half_up-mul (magnitude a) (magnitude b) (magnitude-pos b h))
      (signed-* a b h))

sign-ne : (d : Decimal) → integer d ≢ pos 0 → is_zero d ≡ false
sign-ne d h = ground arith

-- Scaling by a quantity over an equal one, not zero, gives back the number exactly.
pub mul_div_all :
    (d multiplier divisor : Decimal)
    → integer multiplier ≡ integer divisor
    → integer divisor ≢ pos 0
    → mul_div d multiplier divisor ≡ some (units (integer d))
unfolding mul_div
mul_div_all d multiplier divisor e h =
    rw (sign-ne divisor h, e) (rw (round_quotient-* (integer d) (integer divisor) h))
