-- ===== src/TradingCore/RiskCaps.antt =====
-- What the caps of internal/tradingcore/risk.go leave of a quantity, and what it then costs.
use mathlib.Core.Path.{subst}
use trading_bot.Base.{
  ◌≡◌, ◌≢◌, ◌⊎◌, refl, sym, ap, Bool, true, false, not, ◌&&◌, ◌||◌, none, some, String,
  if◌then◌else◌, inl, inr, Bool-cases, arith,
}
use trading_bot.Base.Rational.{Rational, ◌+ℚ◌, ◌-ℚ◌, ◌*ℚ◌, ◌/ℚ◌, leb_ℚ, is_positive_ℚ}
use trading_bot.Base.Rational.Order.{
  ◌≤ℚ◌, ≤ℚ_refl, ≤ℚ_trans, leb_ℚ→le, leb_ℚ_false, +ℚ_mono_right, +ℚ-le, NonNegative, Positive,
}
use trading_bot.Base.Rational.Products.{*ℚ_mono_left, /ℚ-mul}
use trading_bot.Accounting.Decimal.{Decimal}
use trading_bot.TradingCore.Exact.{decimal_rat}
use trading_bot.TradingCore.Risk.{Sizing, at_most, is_cap, cap_by, cap_cash, cap_holding}

at_most-le_left : (c r : Rational) → at_most c r ≤ℚ c
at_most-le_left c r = elim (Bool-cases (leb_ℚ r c)) [
  | inl p ↦ rw (p) (leb_ℚ→le r c p)
  | inr p ↦ rw (p) (≤ℚ_refl c)
]

at_most-le_right : (c r : Rational) → at_most c r ≤ℚ r
at_most-le_right c r = elim (Bool-cases (leb_ℚ r c)) [
  | inl p ↦ rw (p) (≤ℚ_refl r)
  | inr p ↦ rw (p) (leb_ℚ_false r c p)
]

-- The use of a limit by a quantity, if the limit caps.
abbrev pub Fits : Bool → Decimal → Rational → Rational → Rational → Type 0
Fits applies limit used unit q =
    (applies && is_cap limit) ≡ true → used +ℚ q *ℚ unit ≤ℚ decimal_rat limit

pub Fits-mono :
    (b : Bool) (limit : Decimal) (used unit q r : Rational)
    → NonNegative unit
    → q ≤ℚ r
    → Fits b limit used unit r
    → Fits b limit used unit q
Fits-mono b limit used unit q r n h fits c =
    ≤ℚ_trans (used +ℚ q *ℚ unit) (used +ℚ r *ℚ unit) (decimal_rat limit)
      (+ℚ_mono_right used (q *ℚ unit) (r *ℚ unit) (*ℚ_mono_left q r unit n h)) (fits c)

-- A sizing that is not rejected comes from one that was not, and is at most it.
abbrev pub Narrows : Sizing → Rational → Type 0
Narrows s q = (s.1 ≡ none) × (q ≤ℚ s.0)

-- The three ends of a cap.
cap_ends :
    (a b k : Bool) (r x q : Rational) (code : String)
    → ◌≡◌ {A = Sizing}
        (if not a || not b then (r, none) else if not k then (r, some code) else (x, none))
        (q, none)
    → (((a && b) ≡ false) × (r ≡ q)) ⊎ (((a && b) ≡ true) × (x ≡ q))
cap_ends false b k r x q code h = inl (refl, ap (λ (s : Sizing). s.0) h)
cap_ends true false k r x q code h = inl (refl, ap (λ (s : Sizing). s.0) h)
cap_ends true true false r x q code h = ground arith
cap_ends true true true r x q code h = inr (refl, ap (λ (s : Sizing). s.0) h)

pub cap_by-Fits :
    (applies : Bool) (limit : Decimal) (used unit : Rational) (code : String) (s : Sizing)
    (q : Rational)
    → Positive unit
    → cap_by applies limit used unit code s ≡ (q, none)
    → Narrows s q × Fits applies limit used unit q
unfolding cap_by
cap_by-Fits applies limit used unit code (r, some e) q p h = ground arith
cap_by-Fits applies limit used unit code (r, none) q p h =
    elim (cap_ends applies (is_cap limit) (is_positive_ℚ (decimal_rat limit -ℚ used)) r _ q code
      h) [
        | inl (c, e) ↦
            ((refl, subst (λ (t : Rational). q ≤ℚ t) (sym e) (≤ℚ_refl q)), λ t. clash c t)
        | inr (c, e) ↦ (
          (refl, subst (λ (t : Rational). t ≤ℚ r) e (at_most-le_right candidate r)),
          λ t. +ℚ-le used (q *ℚ unit) (decimal_rat limit) (
              /ℚ-mul q (decimal_rat limit -ℚ used) unit p
                (subst (λ (t : Rational). t ≤ℚ candidate) e (at_most-le_left candidate r))),
        )
      ]
  where
    candidate : Rational
    candidate = (decimal_rat limit -ℚ used) /ℚ unit

    clash : {P : Type 0} {b : Bool} → b ≡ false → b ≡ true → P
    clash h k = ground arith

-- The two ends of a cap with a positive result.
positive_ends :
    (k j : Bool) (r x q : Rational) (code : String)
    → ◌≡◌ {A = Sizing}
        (if not k then (r, some code) else if not j then (x, some code) else (x, none))
        (q, none)
    → (j ≡ true) × (x ≡ q)
positive_ends false j r x q code h = ground arith
positive_ends true false r x q code h = ground arith
positive_ends true true r x q code h = (refl, ap (λ (s : Sizing). s.0) h)

pub cap_cash-Fits :
    (unit c : Rational) (s : Sizing) (q : Rational)
    → Positive unit
    → cap_cash unit (some c) s ≡ (q, none)
    → Narrows s q × (q *ℚ unit ≤ℚ c) × (is_positive_ℚ q ≡ true)
unfolding cap_cash
cap_cash-Fits unit c (r, some e) q p h = ground arith
cap_cash-Fits unit c (r, none) q p h =
    (let e =
        positive_ends (is_positive_ℚ c) (is_positive_ℚ (at_most (c /ℚ unit) r)) r
          (at_most (c /ℚ unit) r) q "insufficient_cash" h in
      (
        (refl, subst (λ (t : Rational). t ≤ℚ r) e.1 (at_most-le_right (c /ℚ unit) r)),
        /ℚ-mul q c unit p
            (subst (λ (t : Rational). t ≤ℚ c /ℚ unit) e.1 (at_most-le_left (c /ℚ unit) r)),
        subst (λ (t : Rational). is_positive_ℚ t ≡ true) e.1 e.0,
      ))

pub cap_cash-ne-none :
    (unit : Rational) (s : Sizing) (q : Rational) → cap_cash unit none s ≢ (q, none)
unfolding cap_cash
cap_cash-ne-none unit (r, some e) q h = ground arith
cap_cash-ne-none unit (r, none) q h = ground arith

pub cap_holding-Fits :
    (available : Rational) (s : Sizing) (q : Rational)
    → cap_holding available s ≡ (q, none)
    → Narrows s q × (q ≤ℚ available) × (is_positive_ℚ q ≡ true)
unfolding cap_holding
cap_holding-Fits a (r, some e) q h = ground arith
cap_holding-Fits a (r, none) q h =
    (let e =
        positive_ends true (is_positive_ℚ (at_most a r)) r (at_most a r) q "insufficient_asset" h in
      (
        (refl, subst (λ (t : Rational). t ≤ℚ r) e.1 (at_most-le_right a r)),
        subst (λ (t : Rational). t ≤ℚ a) e.1 (at_most-le_left a r),
        subst (λ (t : Rational). is_positive_ℚ t ≡ true) e.1 e.0,
      ))
