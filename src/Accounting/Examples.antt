-- ===== src/Accounting/Examples.antt =====
-- The theorems on decimals at single numbers (internal/accounting/decimal.go).
use trading_bot.Base.{
  ℕ, suc, ◌*◌, ◌≤◌, ◌<◌, ◌≡◌, ◌≢◌, refl, some, arith, pos, ◌-ℤ◌, magnitude, ◌*ℤ◌,
}
use trading_bot.Accounting.Decimal.{units, mul_div, round_quotient}
use trading_bot.Accounting.Text.{Parsed, parse, to_string}
use trading_bot.Accounting.Rounding.{round_quotient_nearest, mul_div_all}
use trading_bot.Accounting.RoundTrip.{parse-to_string}

nonzero : (n : ℕ) → pos (suc n) ≢ pos 0
nonzero n h = ground arith

parse-to_string_example :
    parse (to_string (units (pos 1500000000000000000)))
    ≡ Parsed.ok (units (pos 1500000000000000000))
parse-to_string_example = parse-to_string (units (pos 1500000000000000000))

round_quotient_nearest_example :
    let q = round_quotient (pos 7) (pos 2) in
    (2 * magnitude (q *ℤ pos 2 -ℤ pos 7) ≤ magnitude (pos 2))
    × (2 * magnitude (q *ℤ pos 2 -ℤ pos 7) ≡ magnitude (pos 2)
        → magnitude (pos 7) < magnitude q * magnitude (pos 2))
round_quotient_nearest_example = round_quotient_nearest (pos 7) (pos 2) (nonzero 1)

mul_div_all_example :
    mul_div (units (pos 10)) (units (pos 3)) (units (pos 3)) ≡ some (units (pos 10))
mul_div_all_example = mul_div_all (units (pos 10)) (units (pos 3)) (units (pos 3)) refl (nonzero 2)
