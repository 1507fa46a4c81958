-- ===== src/Accounting/Decimal.antt =====
-- The arithmetic of internal/accounting/decimal.go: integers of 10^-18 units, of any size.
-- A `Decimal` whose `value` is nil reads as 0 in every operation.
use trading_bot.Base.{
  ℕ, suc, ◌^◌, Bool, Option, none, some, if◌then◌else◌, leb, ℤ, pos, negsuc, ◌+ℤ◌, ◌-ℤ◌, ◌*ℤ◌, neg,
  ltb_ℤ, leb_ℤ, eqb_ℤ, magnitude, quo, rem,
}

pub record Decimal : Type 0 where
  pub value : Option ℤ

abbrev pub scale : ℕ
scale = 18

abbrev pub factor : ℤ
factor = pos (10 ^ 18)

abbrev pub units : ℤ → Decimal
units z = record { value = some z }

abbrev pub zero : Decimal
zero = units (pos 0)

abbrev or_zero : Option ℤ → ℤ
or_zero none = pos 0
or_zero (some z) = z

-- `integer()`: nil reads as 0.
abbrev pub integer : Decimal → ℤ
integer d = or_zero d.value

-- big.Int.Sign: -1, 0 or 1.
abbrev pub sign_of : ℤ → ℤ
sign_of (pos ℕ.zero) = pos 0
sign_of (pos (suc n)) = pos 1
sign_of (negsuc n) = negsuc 0

abbrev sign_or_zero : Option ℤ → ℤ
sign_or_zero none = pos 0
sign_or_zero (some z) = sign_of z

abbrev pub sign : Decimal → ℤ
sign d = sign_or_zero d.value

-- The comparisons of `Sign()` and of `Cmp` with 0 that the callers make.
abbrev pub is_negative : Decimal → Bool
is_negative d = ltb_ℤ (sign d) (pos 0)

abbrev pub is_zero : Decimal → Bool
is_zero d = eqb_ℤ (sign d) (pos 0)

abbrev pub is_positive : Decimal → Bool
is_positive d = ltb_ℤ (pos 0) (sign d)

-- `Cmp`, as the three answers of big.Int.Cmp.
abbrev pub cmp : Decimal → Decimal → ℤ
cmp d e =
    if ltb_ℤ (integer d) (integer e)
    then negsuc 0
    else if ltb_ℤ (integer e) (integer d)
    then pos 1
    else pos 0

unfoldable pub add : Decimal → Decimal → Decimal
add d e = units (integer d +ℤ integer e)

unfoldable pub sub : Decimal → Decimal → Decimal
sub d e = units (integer d -ℤ integer e)

unfoldable pub negate : Decimal → Decimal
negate d = units (neg (integer d))

-- The last step of `roundQuotient`: away from zero by one, by the signs of the operands.
round_away : ℤ → ℤ → ℤ → ℤ
round_away numerator denominator quotient =
    if leb_ℤ (pos 0) (sign_of numerator *ℤ sign_of denominator)
    then quotient +ℤ pos 1
    else quotient -ℤ pos 1

unfoldable pub round_quotient : ℤ → ℤ → ℤ
unfolding round_away quo rem
round_quotient numerator denominator =
    let quotient = quo numerator denominator in
    let twice = magnitude (rem numerator denominator *ℤ pos 2) in
    if leb (magnitude denominator) twice
    then round_away numerator denominator quotient
    else quotient

unfoldable pub mul : Decimal → Decimal → Decimal
mul d e = units (round_quotient (integer d *ℤ integer e) factor)

-- `Div` and `MulDiv` report division by zero; `none` is that error.
unfoldable pub div : Decimal → Decimal → Option Decimal
div d other =
    if is_zero other
    then none
    else some (units (round_quotient (integer d *ℤ factor) (integer other)))

unfoldable pub mul_div : Decimal → Decimal → Decimal → Option Decimal
mul_div d multiplier divisor =
    if is_zero divisor
    then none
    else some (units (round_quotient (integer d *ℤ integer multiplier) (integer divisor)))
