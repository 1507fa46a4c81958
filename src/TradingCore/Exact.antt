-- ===== src/TradingCore/Exact.antt =====
-- internal/tradingcore/exact.go: the exact amounts as rationals, and back by rounding.
use trading_bot.Base.{
  ◌*◌, not, Option, none, some, if◌then◌else◌, leb, pos, ◌+ℤ◌, ◌-ℤ◌, ◌*ℤ◌, ◌^◌, quo, magnitude, rem,
  is_neg,
}
use trading_bot.Base.Rational.{Rational, ratio, of_integer, den, ◌*ℚ◌, ◌/ℚ◌, is_positive_ℚ}
use trading_bot.Accounting.Decimal.{Decimal, integer, units, factor, is_positive}

abbrev pub decimal_rat : Decimal → Rational
decimal_rat d = ratio (integer d) (10 ^ 18)

-- Halves are rounded away from zero.
unfoldable pub rat_decimal : Rational → Decimal
rat_decimal x =
    (let numerator = x.num *ℤ factor in
      let quotient = quo numerator (pos (den x)) in
      units (
        if leb (den x) (magnitude (rem numerator (pos (den x))) * 2)
        then (if is_neg x.num then quotient -ℤ pos 1 else quotient +ℤ pos 1)
        else quotient))

unfoldable pub quantity_from_rat : Rational → Option Decimal
quantity_from_rat x = (let d = rat_decimal x in if is_positive d then some d else none)

abbrev pub notional : Decimal → Decimal → Rational
notional quantity price = decimal_rat quantity *ℚ decimal_rat price

-- The largest multiple of the lot that is at most the value; an invalid lot is none.
unfoldable pub normalized_quantity : Rational → Decimal → Option Rational
normalized_quantity value lot =
    if not (is_positive_ℚ value)
    then none
    else if not (is_positive lot)
    then some value
    else (let step = decimal_rat lot in
        let count = value /ℚ step in
        let result = of_integer (quo count.num (pos (den count))) *ℚ step in
        if is_positive_ℚ result then some result else none)
