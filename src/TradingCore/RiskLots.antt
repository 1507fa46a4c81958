-- ===== src/TradingCore/RiskLots.antt =====
-- With a lot size the quantities that internal/tradingcore/risk.go sizes are exact decimals.
use mathlib.Core.Path.{subst}
use trading_bot.Base.{
  ℕ, suc, ◌^◌, ◌-◌, ◌*◌, ◌/◌, ◌%◌, ap, ◌≡◌, refl, sym, ◌∙◌, Bool, true, false, if◌then◌else◌, none,
  some, inl, inr, arith, ℤ, pos, negsuc, ◌*ℤ◌, quo, rem, magnitude, some-injective,
}
use trading_bot.Base.Rational.{Rational, ratio, of_integer, den, ◌*ℚ◌, ◌/ℚ◌, is_positive_ℚ}
use trading_bot.Accounting.Decimal.{Decimal, units, integer, is_positive}
use trading_bot.TradingCore.Contracts.{OrderIntent}
use trading_bot.TradingCore.Exact.{decimal_rat, rat_decimal, quantity_from_rat, normalized_quantity}
use trading_bot.TradingCore.Portfolio.{RiskPolicy, PortfolioSnapshot}
use trading_bot.TradingCore.Risk.{RiskTotals, cap_intent}
use trading_bot.TradingCore.RiskRound.{size_intent}
use trading_bot.TradingCore.RiskSizing.{fit_lot-le, lot_ends}

*ℤ-pos : (n : ℕ) (d : ℕ) → pos n *ℤ pos (suc d) ≡ pos (n * suc d)
unfolding ◌*ℤ◌
*ℤ-pos n d = ground arith

*ℤ-negsuc : (n : ℕ) (d : ℕ) → negsuc n *ℤ pos (suc d) ≡ negsuc (suc n * suc d - 1)
unfolding ◌*ℤ◌
*ℤ-negsuc n d = ground arith

suc-pred : (n d : ℕ) → suc (suc n * suc d - 1) ≡ suc n * suc d
suc-pred n d = grind arith

*-/ : (n d : ℕ) → n * suc d / suc d ≡ n
*-/ n d = grind arith

*-% : (n d : ℕ) → n * suc d % suc d ≡ 0
*-% n d = grind arith

quo-* : (n : ℤ) (d : ℕ) → quo (n *ℤ pos (suc d)) (pos (suc d)) ≡ n
unfolding quo
quo-* (pos n) d = rw (*ℤ-pos n d) (ground (arith, *-/ n d))
quo-* (negsuc n) d = rw (*ℤ-negsuc n d) (ground (arith, suc-pred n d, *-/ (suc n) d))

rem-* : (n : ℤ) (d : ℕ) → magnitude (rem (n *ℤ pos (suc d)) (pos (suc d))) ≡ 0
unfolding rem
rem-* (pos n) d = rw (*ℤ-pos n d) (ground (arith, *-% n d))
rem-* (negsuc n) d = rw (*ℤ-negsuc n d) (ground (arith, suc-pred n d, *-% (suc n) d))

-- A fraction of 10^18 is rounded to itself.
rat_decimal-exact : (n : ℤ) → rat_decimal (ratio n (10 ^ 18)) ≡ units n
unfolding rat_decimal
rat_decimal-exact n = rw (quo-* n (10 ^ 18 - 1), rem-* n (10 ^ 18 - 1)) refl

given : (b : Bool) (x y : Decimal) → (if b then some x else none) ≡ some y → x ≡ y
given true x y h = some-injective x y h
given false x y h = ground arith

-- A multiple of a lot is approved as it is.
pub quantity_from_rat-lot :
    (k : ℤ) (lot d : Decimal)
    → quantity_from_rat (of_integer k *ℚ decimal_rat lot) ≡ some d
    → decimal_rat d ≡ of_integer k *ℚ decimal_rat lot
unfolding quantity_from_rat ◌*ℚ◌
quantity_from_rat-lot k lot d h = ap decimal_rat (
    sym (given (is_positive (rat_decimal x)) (rat_decimal x) d h)
    ∙ rat_decimal-exact (k *ℤ integer lot))
  where
    x : Rational
    x = of_integer k *ℚ decimal_rat lot

-- A normalized quantity is a multiple of the lot.
normalized_quantity-lot :
    (v q : Rational) (lot : Decimal)
    → is_positive lot ≡ true
    → normalized_quantity v lot ≡ some q
    → (k : ℤ) × (q ≡ of_integer k *ℚ decimal_rat lot)
unfolding normalized_quantity
normalized_quantity-lot v q lot p h =
    elim (lot_ends (is_positive_ℚ v) (is_positive lot) (is_positive_ℚ whole) v whole q h) [
      | inl (b, e) ↦ ground (arith, b, p)
      | inr (b, c, e) ↦ (quo (v /ℚ step).num (pos (den (v /ℚ step))), sym e)
    ]
  where
    step : Rational
    step = decimal_rat lot

    whole : Rational
    whole = of_integer (quo (v /ℚ step).num (pos (den (v /ℚ step)))) *ℚ step

-- The quantity that an intent is approved with is the one that was sized.
pub size_intent-exact :
    (policy : RiskPolicy) (portfolio : PortfolioSnapshot) (totals : RiskTotals) (i : OrderIntent)
    (q : Rational) (p d : Decimal)
    → is_positive policy.lot_size ≡ true
    → size_intent policy portfolio totals i (some p) none ≡ (q, none)
    → quantity_from_rat q ≡ some d
    → decimal_rat d ≡ q
unfolding size_intent
size_intent-exact policy portfolio totals i q p d lot h e =
    let (r, s, n) =
      fit_lot-le policy (cap_intent (decimal_rat i.quantity) i p portfolio.positions totals policy)
        q h in
    let (k, m) = normalized_quantity-lot r q policy.lot_size lot n in
    quantity_from_rat-lot k policy.lot_size d
      (subst (λ (t : Rational). quantity_from_rat t ≡ some d) m e)
    ∙ sym m
