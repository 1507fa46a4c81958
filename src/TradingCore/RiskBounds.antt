-- ===== src/TradingCore/RiskBounds.antt =====
-- The limits of a policy over the loop of `Evaluate` (internal/tradingcore/risk.go).
use mathlib.Core.Path.{subst}
use trading_bot.Base.{
  ◌≡◌, refl, sym, ap, true, some, List, [], ◌∷◌, String, str_eq, inl, inr, Bool-cases, ℤ, pos,
  some-injective,
}
use trading_bot.Base.Rational.{Rational, ratio, ◌+ℚ◌, ◌*ℚ◌}
use trading_bot.Base.Rational.Order.{
  ◌≤ℚ◌, ≤ℚ_trans, NonNegative, Positive, Positive-NonNegative, -ℚ-NonNegative, -ℚ-le,
}
use trading_bot.Base.Rational.Products.{*ℚ_assoc, +ℚ_part-le, *ℚ-NonNegative}
use trading_bot.Accounting.Decimal.{Decimal}
use trading_bot.TradingCore.Contracts.{OrderIntent, OrderSide, eq_side}
use trading_bot.TradingCore.Exact.{decimal_rat}
use trading_bot.TradingCore.Portfolio.{ExecutionCostPolicy, RiskPolicy, Position}
use trading_bot.TradingCore.Risk.{
  RiskTotals, is_cap, bps, adverse_bps, adverse_price, cash_unit, cash_of, cost_reservation,
}
use trading_bot.TradingCore.RiskCaps.{Fits}
use trading_bot.TradingCore.RiskSizing.{IsSized, SideFits}
use trading_bot.TradingCore.RiskCosts.{IsFair, adverse-Positive, adverse_bps-fair, fee-fair}
use trading_bot.TradingCore.RiskRound.{spend, spend_side, take_cash}

abbrev pub Covered : List (String × Rational) → Type 0
Covered [] = Unit
Covered ((a, c) ∷ cs) = NonNegative c × Covered cs

-- Nothing is beyond its limit, and no cash is overdrawn.
pub record IsWithin (policy : RiskPolicy) (t : RiskTotals) : Type 0 where
  pub gross :
      is_cap policy.max_gross_exposure ≡ true → t.gross ≤ℚ decimal_rat policy.max_gross_exposure
  pub turnover : is_cap policy.max_turnover ≡ true → t.turnover ≤ℚ decimal_rat policy.max_turnover
  pub cash : Covered t.cash

take_cash-Covered :
    (asset : String) (amount c : Rational) (cs : List (String × Rational))
    → Covered cs
    → cash_of asset cs ≡ some c
    → amount ≤ℚ c
    → Covered (take_cash asset amount cs)
take_cash-Covered asset amount c [] h e le = tt
take_cash-Covered asset amount c ((a, d) ∷ cs) h e le = elim (Bool-cases (str_eq a asset)) [
  | inl k ↦ rw (k) (
    -ℚ-NonNegative amount d
        (subst (λ (t : Rational). amount ≤ℚ t) (sym (some-injective d c (rw (k) at e))) le),
    h.1,
  )
  | inr k ↦ rw (k) (h.0, take_cash-Covered asset amount c cs h.1 (rw (k) at e) le)
]

-- The costs of a quantity are its value at the adverse price, and with the fee its cash.
pub cost-adverse :
    (q : Rational) (price : Decimal) (side : OrderSide) (costs : ExecutionCostPolicy)
    → IsFair costs
    → Positive (decimal_rat price)
    → (cost_reservation q price side costs).gross ≡ q *ℚ adverse_price side price costs
unfolding cost_reservation
cost-adverse q price side costs fair p =
    *ℚ_assoc q (decimal_rat price) (bps (adverse_bps side costs))
      (Positive-NonNegative (decimal_rat price) p) (rw (adverse_bps-fair side costs fair) refl)

pub cost-fee :
    (q : Rational) (price : Decimal) (side : OrderSide) (costs : ExecutionCostPolicy)
    → (cost_reservation q price side costs).fee
      ≡ (cost_reservation q price side costs).gross *ℚ bps costs.fee_bps
unfolding cost_reservation
cost-fee q price side costs = refl

cost-cash :
    (q : Rational) (price : Decimal) (costs : ExecutionCostPolicy)
    → IsFair costs
    → Positive (decimal_rat price)
    → (cost_reservation q price OrderSide.buy costs).gross
        +ℚ (cost_reservation q price OrderSide.buy costs).fee
      ≤ℚ q *ℚ cash_unit OrderSide.buy price costs
cost-cash q price costs fair p =
    subst (λ (t : Rational). t ≤ℚ q *ℚ cash_unit OrderSide.buy price costs) (sym spent)
      (subst
        (λ (t : Rational). q *ℚ adverse +ℚ q *ℚ adverse *ℚ ratio (pos fair.fee) 10000 ≤ℚ q *ℚ t)
        (ap (λ (z : ℤ). adverse *ℚ bps z) (sym (fee-fair costs fair)))
        (+ℚ_part-le q adverse fair.fee
          (Positive-NonNegative adverse (adverse-Positive OrderSide.buy price costs fair p))))
  where
    adverse : Rational
    adverse = adverse_price OrderSide.buy price costs

    spent :
        (cost_reservation q price OrderSide.buy costs).gross
          +ℚ (cost_reservation q price OrderSide.buy costs).fee
        ≡ q *ℚ adverse +ℚ q *ℚ adverse *ℚ ratio (pos fair.fee) 10000
    spent =
        rw (cost-fee q price OrderSide.buy costs, cost-adverse q price OrderSide.buy costs fair p)
          (ap (λ (z : ℤ). q *ℚ adverse +ℚ q *ℚ adverse *ℚ bps z) fair.fee_is)

spend_side-IsWithin :
    (side : OrderSide) (policy : RiskPolicy) (intent : OrderIntent) (price : Decimal)
    (positions : List Position) (q : Rational) (t : RiskTotals)
    → IsFair policy.execution_costs
    → Positive (decimal_rat price)
    → NonNegative q
    → Fits (eq_side side OrderSide.buy) policy.max_gross_exposure t.gross (decimal_rat price) q
    → Fits true policy.max_turnover t.turnover (adverse_price side price policy.execution_costs) q
    → SideFits side price intent.instrument positions
        (cash_of intent.instrument.quote_asset t.cash)
        policy.execution_costs
        q
    → IsWithin policy t
    → IsWithin policy (
        spend_side side intent.instrument.quote_asset
          (q *ℚ decimal_rat price)
          (cost_reservation q price side policy.execution_costs)
          t)
spend_side-IsWithin OrderSide.buy policy intent price positions q t fair p n g u (c, e, le) w =
    record {
      gross = g;
      turnover = λ k.
          subst (λ (x : Rational). t.turnover +ℚ x ≤ℚ decimal_rat policy.max_turnover)
            (sym (cost-adverse q price OrderSide.buy policy.execution_costs fair p)) (u k);
      cash = take_cash-Covered intent.instrument.quote_asset _ c t.cash w.cash e (
          ≤ℚ_trans _ (q *ℚ cash_unit OrderSide.buy price policy.execution_costs) c
            (cost-cash q price policy.execution_costs fair p) le);
    }
spend_side-IsWithin OrderSide.sell policy intent price positions q t fair p n g u s w = record {
  gross = λ k.
      ≤ℚ_trans _ t.gross (decimal_rat policy.max_gross_exposure)
        (-ℚ-le t.gross (q *ℚ decimal_rat price)
          (*ℚ-NonNegative q (decimal_rat price) n (Positive-NonNegative (decimal_rat price) p)))
        (w.gross k);
  turnover = λ k.
      subst (λ (x : Rational). t.turnover +ℚ x ≤ℚ decimal_rat policy.max_turnover)
        (sym (cost-adverse q price OrderSide.sell policy.execution_costs fair p)) (u k);
  cash = w.cash;
}

pub spend-IsWithin :
    (policy : RiskPolicy) (intent : OrderIntent) (price : Decimal) (positions : List Position)
    (q : Rational) (t : RiskTotals)
    → IsFair policy.execution_costs
    → Positive (decimal_rat price)
    → IsSized policy intent price positions t q
    → IsWithin policy t
    → IsWithin policy (spend policy intent price q t)
unfolding spend
spend-IsWithin policy intent price positions q t fair p s w =
    spend_side-IsWithin intent.side policy intent price positions q t fair p
      (Positive-NonNegative q s.positive) s.gross s.turnover s.side w
