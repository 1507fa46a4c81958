-- ===== src/TradingCore/RiskTally.antt =====
-- What an approval takes from the totals of `Evaluate` (internal/tradingcore/risk.go), as amounts.
use mathlib.Core.Path.{subst}
use trading_bot.Base.{
  ◌≡◌, ◌⊎◌, refl, ap, ◌∙◌, true, false, some, List, [], ◌∷◌, String, str_eq, eq_iff, inl, inr,
  Bool-cases, arith, some-injective,
}
use trading_bot.Base.Rational.{Rational, ◌+ℚ◌, ◌-ℚ◌, ◌*ℚ◌}
use trading_bot.Base.Rational.Order.{Positive}
use trading_bot.Accounting.Decimal.{Decimal}
use trading_bot.TradingCore.Contracts.{OrderIntent, OrderSide, Instrument}
use trading_bot.TradingCore.Exact.{decimal_rat}
use trading_bot.TradingCore.Portfolio.{ExecutionCostPolicy, RiskPolicy, Position}
use trading_bot.TradingCore.Risk.{RiskTotals, bps, adverse_price, cash_of, cost_reservation}
use trading_bot.TradingCore.RiskSizing.{IsSized, SideFits}
use trading_bot.TradingCore.RiskCosts.{IsFair}
use trading_bot.TradingCore.RiskBounds.{cost-adverse, cost-fee}
use trading_bot.TradingCore.RiskRound.{spend, spend_side, take_cash}

-- The cash of `asset` is less by the amount, and that of every other asset is the same.
abbrev pub IsPaid : String → Rational → List (String × Rational) → List (String × Rational) → Type 0
IsPaid asset amount before after =
    ((c : Rational) × (cash_of asset before ≡ some c) × (cash_of asset after ≡ some (c -ℚ amount)))
    × ((a : String) → (str_eq asset a ≡ true) ⊎ (cash_of a after ≡ cash_of a before))

-- The gross exposure and the cash after a quantity is bought or sold.
abbrev pub IsMoved : OrderSide → String → Rational → Rational → RiskTotals → RiskTotals → Type 0
IsMoved OrderSide.buy asset value cost t u =
    (u.gross ≡ t.gross +ℚ value) × IsPaid asset cost t.cash u.cash
IsMoved OrderSide.sell asset value cost t u = (u.gross ≡ t.gross -ℚ value) × (u.cash ≡ t.cash)

-- The turnover rises by the quantity at the price with slippage; the exposure moves by the quantity
-- at the reference price; and a buy pays the turnover and the fee on it from the cash.
abbrev pub IsSpent :
    RiskPolicy → OrderIntent → Decimal → Rational → RiskTotals → RiskTotals → Type 0
IsSpent policy i price q t u =
    let value = q *ℚ adverse_price i.side price policy.execution_costs in
    (u.turnover ≡ t.turnover +ℚ value)
    × IsMoved i.side i.instrument.quote_asset (q *ℚ decimal_rat price)
        (value +ℚ value *ℚ bps policy.execution_costs.fee_bps) t u

take_cash-other :
    (asset a : String) (amount : Rational) (cs : List (String × Rational))
    → str_eq asset a ≡ false
    → cash_of a (take_cash asset amount cs) ≡ cash_of a cs
take_cash-other asset a amount [] h = refl
take_cash-other asset a amount ((b, d) ∷ cs) h = elim (Bool-cases (str_eq b asset)) [
  | inl k ↦
      let n : str_eq b a ≡ false = ap (λ (t : String). str_eq t a) ((eq_iff b asset).0 k) ∙ h in
      rw k (rw n refl)
  | inr k ↦ rw k (rw (take_cash-other asset a amount cs h) refl)
]

take_cash-IsPaid :
    (asset : String) (amount c : Rational) (cs : List (String × Rational))
    → cash_of asset cs ≡ some c
    → IsPaid asset amount cs (take_cash asset amount cs)
take_cash-IsPaid asset amount c cs e = (
  (c, e, own cs e),
  λ a. elim (Bool-cases (str_eq asset a)) [
    | inl k ↦ inl k
    | inr k ↦ inr (take_cash-other asset a amount cs k)
  ],
)
  where
    own :
        (ds : List (String × Rational))
        → cash_of asset ds ≡ some c
        → cash_of asset (take_cash asset amount ds) ≡ some (c -ℚ amount)
    own [] h = ground arith
    own ((b, d) ∷ ds) h = elim (Bool-cases (str_eq b asset)) [
      | inl k ↦
          rw k
            (rw k (ap some (ap (λ (t : Rational). t -ℚ amount) (some-injective d c (rw (k) at h)))))
      | inr k ↦ rw k (rw k (own ds (rw (k) at h)))
    ]

spend_side-IsMoved :
    (side : OrderSide) (price : Decimal) (i : Instrument) (positions : List Position)
    (policy : RiskPolicy) (q value : Rational) (t : RiskTotals)
    → SideFits side price i positions (cash_of i.quote_asset t.cash) policy.execution_costs q
    → IsMoved side i.quote_asset value
        ((cost_reservation q price side policy.execution_costs).gross
          +ℚ (cost_reservation q price side policy.execution_costs).fee)
        t
        (spend_side side i.quote_asset value
          (cost_reservation q price side policy.execution_costs)
          t)
spend_side-IsMoved OrderSide.buy price i positions policy q value t (c, e, le) =
    (refl, take_cash-IsPaid i.quote_asset _ c t.cash e)
spend_side-IsMoved OrderSide.sell price i positions policy q value t s = (refl, refl)

spend_side-turnover :
    (side : OrderSide) (asset : String) (price : Decimal) (costs : ExecutionCostPolicy)
    (q value : Rational) (t : RiskTotals)
    → (spend_side side asset value (cost_reservation q price side costs) t).turnover
      ≡ t.turnover +ℚ (cost_reservation q price side costs).gross
spend_side-turnover OrderSide.buy asset price costs q value t = refl
spend_side-turnover OrderSide.sell asset price costs q value t = refl

pub spend-IsSpent :
    (policy : RiskPolicy) (i : OrderIntent) (price : Decimal) (positions : List Position)
    (q : Rational) (t : RiskTotals)
    → IsFair policy.execution_costs
    → Positive (decimal_rat price)
    → IsSized policy i price positions t q
    → IsSpent policy i price q t (spend policy i price q t)
unfolding spend
spend-IsSpent policy i price positions q t fair p s =
    let gross = cost-adverse q price i.side policy.execution_costs fair p in
    let fee = cost-fee q price i.side policy.execution_costs in
    (
      spend_side-turnover i.side i.instrument.quote_asset price policy.execution_costs q
            (q *ℚ decimal_rat price) t
          ∙ ap (λ (x : Rational). t.turnover +ℚ x) gross,
      subst
          (λ (x : Rational). IsMoved i.side i.instrument.quote_asset (q *ℚ decimal_rat price) x t (
            spend_side i.side i.instrument.quote_asset (q *ℚ decimal_rat price)
              (cost_reservation q price i.side policy.execution_costs) t))
          (ap
              (λ (x : Rational).
                (cost_reservation q price i.side policy.execution_costs).gross +ℚ x)
              fee
            ∙ ap (λ (x : Rational). x +ℚ x *ℚ bps policy.execution_costs.fee_bps) gross)
          (spend_side-IsMoved i.side price i.instrument positions policy q (q *ℚ decimal_rat price)
            t s.side),
    )
