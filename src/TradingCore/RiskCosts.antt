-- ===== src/TradingCore/RiskCosts.antt =====
-- The positive factors by which the costs of internal/tradingcore/risk.go change a price.
use trading_bot.Base.{ℕ, ◌+◌, ◌-◌, ◌<◌, ◌≡◌, true, arith, ℤ, pos, neg, ◌+ℤ◌, ◌-ℤ◌}
use trading_bot.Base.Rational.Order.{Positive}
use trading_bot.Base.Rational.Products.{*ℚ-Positive}
use trading_bot.Accounting.Decimal.{Decimal, is_positive}
use trading_bot.TradingCore.Contracts.{OrderSide}
use trading_bot.TradingCore.Exact.{decimal_rat}
use trading_bot.TradingCore.Portfolio.{ExecutionCostPolicy, wrap}
use trading_bot.TradingCore.Risk.{cash_unit, adverse_price, adverse_bps, bps}

-- The costs of a policy that validates, without overflow.
pub record IsFair (c : ExecutionCostPolicy) : Type 0 where
  pub fee : ℕ
  pub slippage : ℕ
  pub fee_is : c.fee_bps ≡ pos fee
  pub slippage_is : c.adverse_slippage_bps ≡ pos slippage
  pub below : fee + slippage < 10000

abbrev pub factor_of : OrderSide → ℕ → ℕ
factor_of OrderSide.buy s = 10000 + s
factor_of OrderSide.sell s = 10000 - s

pub adverse_bps-fair :
    (side : OrderSide) (c : ExecutionCostPolicy) (fair : IsFair c)
    → adverse_bps side c ≡ pos (factor_of side fair.slippage)
unfolding ◌+ℤ◌ ◌-ℤ◌ neg
adverse_bps-fair OrderSide.buy c fair = rw (fair.slippage_is) (ground (arith, fair.below))
adverse_bps-fair OrderSide.sell c fair = rw (fair.slippage_is) (ground (arith, fair.below))

pub bps-Positive : (z : ℤ) (n : ℕ) → z ≡ pos n → 0 < n → Positive (bps z)
bps-Positive z n e h = rw (e) h

pub factor_pos :
    (side : OrderSide) (c : ExecutionCostPolicy) (fair : IsFair c)
    → 0 < factor_of side fair.slippage
factor_pos OrderSide.buy c fair = omega arith
factor_pos OrderSide.sell c fair = omega (arith, fair.below)

pub adverse-Positive :
    (side : OrderSide) (price : Decimal) (c : ExecutionCostPolicy)
    → IsFair c
    → Positive (decimal_rat price)
    → Positive (adverse_price side price c)
adverse-Positive side price c fair p =
    *ℚ-Positive (decimal_rat price) (bps (adverse_bps side c)) p
      (bps-Positive _ _ (adverse_bps-fair side c fair) (factor_pos side c fair))

pub fee-fair :
    (c : ExecutionCostPolicy) (fair : IsFair c)
    → wrap (pos 10000 +ℤ c.fee_bps) ≡ pos (10000 + fair.fee)
unfolding ◌+ℤ◌ ◌-ℤ◌ neg
fee-fair c fair = rw (fair.fee_is) (ground (arith, fair.below))

pub cash_unit-Positive :
    (price : Decimal) (c : ExecutionCostPolicy)
    → IsFair c
    → Positive (decimal_rat price)
    → Positive (cash_unit OrderSide.buy price c)
cash_unit-Positive price c fair p =
    *ℚ-Positive (adverse_price OrderSide.buy price c) (bps (wrap (pos 10000 +ℤ c.fee_bps)))
      (adverse-Positive OrderSide.buy price c fair p)
      (bps-Positive (wrap (pos 10000 +ℤ c.fee_bps)) (10000 + fair.fee) (fee-fair c fair)
        (omega arith))

pub decimal-Positive : (d : Decimal) → is_positive d ≡ true → Positive (decimal_rat d)
decimal-Positive d h = ground arith
