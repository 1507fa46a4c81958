-- ===== src/TradingCore/RiskGranted.antt =====
-- When the caps of internal/tradingcore/risk.go grant a quantity in full.
use trading_bot.TradingCore.PolicyLaws.{FitsInt64, policy-IsFair}
use trading_bot.Base.{
  ◌≡◌, refl, ap, ◌∙◌, Bool, true, false, not, ◌&&◌, ◌||◌, Option, none, some, List, String,
  if◌then◌else◌, inl, inr, Bool-cases, arith, ◌↔◌,
}
use trading_bot.Base.Rational.{Rational, ◌-ℚ◌, ◌*ℚ◌, ◌/ℚ◌, is_positive_ℚ}
use trading_bot.Base.Rational.Order.{◌≤ℚ◌, Positive}
use trading_bot.Base.Rational.Products.{le--ℚ, mul-le-/ℚ, Positive-le, le→leb_ℚ, *ℚ-Positive}
use trading_bot.Accounting.Decimal.{Decimal, is_positive}
use trading_bot.TradingCore.Contracts.{OrderIntent, OrderSide, Instrument, eq_side}
use trading_bot.TradingCore.Exact.{decimal_rat}
use trading_bot.TradingCore.Portfolio.{RiskPolicy, Position, validate_policy}
use trading_bot.TradingCore.Risk.{
  RiskTotals, Sizing, at_most, is_cap, cap_by, cap_cash, cap_holding, cap_side, cap_intent,
  position_quantity, instrument_exposure, cash_of, cash_unit, adverse_price,
}
use trading_bot.TradingCore.RiskCaps.{Fits}
use trading_bot.TradingCore.RiskCosts.{
  IsFair, adverse-Positive, cash_unit-Positive, decimal-Positive,
}
use trading_bot.TradingCore.RiskSizing.{SideFits, IsSized, cap_intent-IsSized}

is_positive_ℚ-true : (x : Rational) → Positive x → is_positive_ℚ x ≡ true
is_positive_ℚ-true x h = ground arith

at_most-eq : (c r : Rational) → r ≤ℚ c → at_most c r ≡ r
at_most-eq c r h = rw (le→leb_ℚ r c h) refl

cap_by-granted :
    (applies : Bool) (limit : Decimal) (used unit : Rational) (code : String) (q : Rational)
    → Positive unit
    → Positive q
    → Fits applies limit used unit q
    → cap_by applies limit used unit code (q, none) ≡ (q, none)
unfolding cap_by
cap_by-granted applies limit used unit code q p n f = elim (Bool-cases (applies && is_cap limit)) [
  | inr c ↦
      open_end (at_most candidate q) (is_positive_ℚ (decimal_rat limit -ℚ used)) applies
        (is_cap limit) c
  | inl c ↦
      (let room = le--ℚ used (q *ℚ unit) (decimal_rat limit) (f c) in
        closed_end (at_most candidate q) (is_positive_ℚ (decimal_rat limit -ℚ used)) applies
          (is_cap limit) c
          (is_positive_ℚ-true (decimal_rat limit -ℚ used)
            (Positive-le (q *ℚ unit) (decimal_rat limit -ℚ used) (*ℚ-Positive q unit n p) room))
          (at_most-eq ((decimal_rat limit -ℚ used) /ℚ unit) q
            (mul-le-/ℚ q (decimal_rat limit -ℚ used) unit p room)))
]
  where
    candidate : Rational
    candidate = (decimal_rat limit -ℚ used) /ℚ unit

    open_end :
        (x : Rational) (k a b : Bool)
        → (a && b) ≡ false
        → ◌≡◌ {A = Sizing}
            (if not a || not b then (q, none) else if not k then (q, some code) else (x, none))
            (q, none)
    open_end x k false b h = refl
    open_end x k true false h = refl
    open_end x k true true h = ground arith

    closed_end :
        (x : Rational) (k a b : Bool)
        → (a && b) ≡ true
        → k ≡ true
        → x ≡ q
        → ◌≡◌ {A = Sizing}
            (if not a || not b then (q, none) else if not k then (q, some code) else (x, none))
            (q, none)
    closed_end x k a b h e g = ground arith

cap_cash-granted :
    (unit c q : Rational)
    → Positive unit
    → Positive q
    → q *ℚ unit ≤ℚ c
    → cap_cash unit (some c) (q, none) ≡ (q, none)
unfolding cap_cash
cap_cash-granted unit c q p n h =
    rw
      (
        is_positive_ℚ-true c (Positive-le (q *ℚ unit) c (*ℚ-Positive q unit n p) h),
        at_most-eq (c /ℚ unit) q (mul-le-/ℚ q c unit p h),
        is_positive_ℚ-true q n,
      )
      refl

cap_side-granted :
    (side : OrderSide) (price : Decimal) (i : Instrument) (positions : List Position)
    (cash : Option Rational) (policy : RiskPolicy) (q : Rational)
    → IsFair policy.execution_costs
    → Positive (decimal_rat price)
    → Positive q
    → SideFits side price i positions cash policy.execution_costs q
    → cap_side side price i positions cash policy (q, none) ≡ (q, none)
unfolding cap_holding
cap_side-granted OrderSide.buy price i positions cash policy q fair p n (c, e, h) = rw (e) (
    cap_cash-granted (cash_unit OrderSide.buy price policy.execution_costs) c q
      (cash_unit-Positive price policy.execution_costs fair p) n h)
cap_side-granted OrderSide.sell price i positions cash policy q fair p n h =
    rw (at_most-eq (position_quantity positions i) q h, is_positive_ℚ-true q n) refl

granted :
    (intent : OrderIntent) (price : Decimal) (positions : List Position) (totals : RiskTotals)
    (policy : RiskPolicy)
    → IsFair policy.execution_costs
    → Positive (decimal_rat price)
    → IsSized policy intent price positions totals (decimal_rat intent.quantity)
    → cap_intent (decimal_rat intent.quantity) intent price positions totals policy
      ≡ (decimal_rat intent.quantity, none)
unfolding cap_intent
granted intent price positions totals policy fair p s =
    (let q : Rational = decimal_rat intent.quantity in
      let buys = eq_side intent.side OrderSide.buy in
      let reference : Rational = decimal_rat price in
      let adverse = adverse_price intent.side price policy.execution_costs in
      let exposure = instrument_exposure positions intent.instrument in
      let first =
        cap_by-granted buys policy.max_position_value exposure reference
          "per_position_exposure_exceeded" q p s.positive s.position in
      let second =
        ap (cap_by buys policy.max_gross_exposure totals.gross reference "total_exposure_exceeded")
          first
        ∙ cap_by-granted buys policy.max_gross_exposure totals.gross reference
            "total_exposure_exceeded" q p s.positive s.gross in
      let third =
        ap (cap_by true policy.max_turnover totals.turnover adverse "turnover_exceeded") second
        ∙ cap_by-granted true policy.max_turnover totals.turnover adverse "turnover_exceeded" q
            (adverse-Positive intent.side price policy.execution_costs fair p) s.positive
            s.turnover in
      let cash = cash_of intent.instrument.quote_asset totals.cash in
      ap (cap_side intent.side price intent.instrument positions cash policy) third
      ∙ cap_side-granted intent.side price intent.instrument positions cash policy q fair p
          s.positive s.side)

-- The caps grant the requested quantity in full exactly when it is positive and within every limit:
-- the turnover limit, for a buy the limits of the position and of the gross exposure and the cash
-- with its fee and slippage, for a sale what the portfolio holds. The price is positive, the policy
-- valid and its basis points have an int64 sum.
pub cap_intent-granted_iff :
    (intent : OrderIntent) (price : Decimal) (positions : List Position) (totals : RiskTotals)
    (policy : RiskPolicy)
    → validate_policy policy ≡ none
    → FitsInt64 policy.execution_costs
    → is_positive price ≡ true
    → (cap_intent (decimal_rat intent.quantity) intent price positions totals policy
        ≡ (decimal_rat intent.quantity, none))
      ↔ IsSized policy intent price positions totals (decimal_rat intent.quantity)
cap_intent-granted_iff intent price positions totals policy v f k = (
  cap_intent-IsSized intent price positions totals policy (decimal_rat intent.quantity) fair p,
  granted intent price positions totals policy fair p,
)
  where
    fair : IsFair policy.execution_costs
    fair = policy-IsFair policy v f

    p : Positive (decimal_rat price)
    p = decimal-Positive price k
