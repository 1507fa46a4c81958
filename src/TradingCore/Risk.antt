-- ===== src/TradingCore/Risk.antt =====
-- The helpers of internal/tradingcore/risk.go: what a portfolio holds of an instrument, the caps on
-- a quantity and the costs that are reserved. The prices of a portfolio and an intent are positive.
use trading_bot.Base.{
  ℕ, ◌+◌, Bool, true, not, ◌&&◌, ◌||◌, Option, none, some, List, [], ◌∷◌, String, if◌then◌else◌,
  str_eq, ◌==◌, ℤ, pos, ◌+ℤ◌, ◌-ℤ◌, any, is_neg,
}
use trading_bot.Base.Rational.{
  Rational, ratio, ◌+ℚ◌, ◌-ℚ◌, ◌*ℚ◌, ◌/ℚ◌, negated, leb_ℚ, is_positive_ℚ,
}
use trading_bot.Base.Rational.Order.{zero_ℚ}
use trading_bot.Accounting.Decimal.{Decimal, is_zero}
use trading_bot.TradingCore.Contracts.{OrderIntent, OrderSide, Instrument, eq_side}
use trading_bot.TradingCore.Exact.{decimal_rat, notional}
use trading_bot.TradingCore.Portfolio.{
  ExecutionCostPolicy, RiskPolicy, Position, PendingOrder, PortfolioSnapshot, is_valid, wrap,
}

abbrev pub same_instrument : Instrument → Instrument → Bool
same_instrument i j = str_eq i.id j.id

unfoldable pub portfolio_gross : List Position → Rational
portfolio_gross [] = zero_ℚ
portfolio_gross (p ∷ ps) = notional p.quantity p.mark_price +ℚ portfolio_gross ps

unfoldable pub instrument_exposure : List Position → Instrument → Rational
instrument_exposure [] i = zero_ℚ
instrument_exposure (p ∷ ps) i =
    (let rest = instrument_exposure ps i in
      if same_instrument p.instrument i then notional p.quantity p.mark_price +ℚ rest else rest)

unfoldable pub position_quantity : List Position → Instrument → Rational
position_quantity [] i = zero_ℚ
position_quantity (p ∷ ps) i =
    (let rest = position_quantity ps i in
      if same_instrument p.instrument i then decimal_rat p.quantity +ℚ rest else rest)

unfoldable pub existing_count : List Position → Instrument → ℕ
existing_count [] i = 0
existing_count (p ∷ ps) i = (if same_instrument p.instrument i then 1 else 0) + existing_count ps i

unfoldable pub pyramid_layers : List Position → Instrument → ℕ
pyramid_layers [] i = 0
pyramid_layers (p ∷ ps) i =
    (if same_instrument p.instrument i
      then (if p.pyramid_layers == 0 then 1 else p.pyramid_layers)
      else 0)
    + pyramid_layers ps i

unfoldable pub pending_conflict : List PendingOrder → OrderIntent → Bool
pending_conflict ps intent =
    any (λ (p : PendingOrder). same_instrument p.instrument intent.instrument) ps

unfoldable pub count_new_buys : List OrderIntent → List Position → ℕ
unfolding existing_count
count_new_buys [] ps = 0
count_new_buys (i ∷ is) ps =
    (if eq_side i.side OrderSide.buy && existing_count ps i.instrument == 0 then 1 else 0)
    + count_new_buys is ps

abbrev pub mark_of : List Position → Instrument → Option Decimal
mark_of [] i = none
mark_of (p ∷ ps) i =
    (let rest = mark_of ps i in if same_instrument p.instrument i then some p.mark_price else rest)

-- The reference price, the limit price, or the mark of the first position.
unfoldable pub intent_price : OrderIntent → PortfolioSnapshot → Option Decimal
intent_price intent portfolio = elim intent.reference_price [
  | some price ↦ some price
  | none ↦ elim intent.limit_price [
    | some price ↦ some price
    | none ↦ mark_of portfolio.positions intent.instrument
  ]
]

-- The price that the costs make worse, in 1/10000.
abbrev pub adverse_bps : OrderSide → ExecutionCostPolicy → ℤ
adverse_bps OrderSide.buy costs = wrap (pos 10000 +ℤ costs.adverse_slippage_bps)
adverse_bps OrderSide.sell costs = wrap (pos 10000 -ℤ costs.adverse_slippage_bps)

abbrev pub bps : ℤ → Rational
bps n = ratio n 10000

-- A quantity with the code of its rejection, if it is rejected.
abbrev pub Sizing : Type 0
Sizing = Rational × Option String

abbrev pub at_most : Rational → Rational → Rational
at_most candidate result = if leb_ℚ result candidate then result else candidate

abbrev pub is_cap : Decimal → Bool
is_cap limit = is_valid limit && not (is_zero limit)

-- `capBy`
unfoldable pub cap_by : Bool → Decimal → Rational → Rational → String → Sizing → Sizing
cap_by applies limit used unit code (result, some e) = (result, some e)
cap_by applies limit used unit code (result, none) =
    (let remaining = decimal_rat limit -ℚ used in
      if not applies || not (is_cap limit)
      then (result, none)
      else if not (is_positive_ℚ remaining)
      then (result, some code)
      else (at_most (remaining /ℚ unit) result, none))

-- The cash of a buy.
unfoldable pub cap_cash : Rational → Option Rational → Sizing → Sizing
cap_cash unit cash (result, some e) = (result, some e)
cap_cash unit none (result, none) = (result, some "insufficient_cash")
cap_cash unit (some available) (result, none) =
    (let capped = at_most (available /ℚ unit) result in
      if not (is_positive_ℚ available)
      then (result, some "insufficient_cash")
      else if not (is_positive_ℚ capped)
      then (capped, some "insufficient_cash")
      else (capped, none))

-- The holding of a sale.
unfoldable pub cap_holding : Rational → Sizing → Sizing
cap_holding available (result, some e) = (result, some e)
cap_holding available (result, none) =
    (let capped = at_most available result in
      if not (is_positive_ℚ capped) then (capped, some "insufficient_asset") else (capped, none))

abbrev pub adverse_price : OrderSide → Decimal → ExecutionCostPolicy → Rational
adverse_price side price costs = decimal_rat price *ℚ bps (adverse_bps side costs)

abbrev pub cash_unit : OrderSide → Decimal → ExecutionCostPolicy → Rational
cash_unit side price costs =
    adverse_price side price costs *ℚ bps (wrap (pos 10000 +ℤ costs.fee_bps))

-- What has been used of the limits so far.
pub record RiskTotals : Type 0 where
  pub gross : Rational
  pub turnover : Rational
  pub cash : List (String × Rational)

abbrev pub cash_of : String → List (String × Rational) → Option Rational
cash_of asset [] = none
cash_of asset ((a, c) ∷ cs) =
    (let rest = cash_of asset cs in if str_eq a asset then some c else rest)

abbrev pub cap_side :
    OrderSide
    → Decimal
    → Instrument
    → List Position
    → Option Rational
    → RiskPolicy
    → Sizing
    → Sizing
cap_side OrderSide.buy price i positions cash policy sizing =
    cap_cash (cash_unit OrderSide.buy price policy.execution_costs) cash sizing
cap_side OrderSide.sell price i positions cash policy sizing =
    cap_holding (position_quantity positions i) sizing

unfoldable pub cap_intent :
    Rational → OrderIntent → Decimal → List Position → RiskTotals → RiskPolicy → Sizing
cap_intent quantity intent price positions totals policy =
    (let reference = decimal_rat price in
      let buys = eq_side intent.side OrderSide.buy in
      let within_position =
        cap_by buys policy.max_position_value (instrument_exposure positions intent.instrument)
          reference "per_position_exposure_exceeded" (quantity, none) in
      let within_gross =
        cap_by buys policy.max_gross_exposure totals.gross reference "total_exposure_exceeded"
          within_position in
      let within_turnover =
        cap_by true policy.max_turnover totals.turnover
          (adverse_price intent.side price policy.execution_costs) "turnover_exceeded"
          within_gross in
      cap_side intent.side price intent.instrument positions
        (cash_of intent.instrument.quote_asset totals.cash) policy within_turnover)

pub record Reservation : Type 0 where
  pub gross : Rational
  pub slippage : Rational
  pub fee : Rational

unfoldable pub cost_reservation : Rational → Decimal → OrderSide → ExecutionCostPolicy → Reservation
cost_reservation quantity price side costs =
    (let reference = quantity *ℚ decimal_rat price in
      let gross = reference *ℚ bps (adverse_bps side costs) in
      let difference = gross -ℚ reference in
      record {
        gross = gross;
        slippage = if is_neg difference.num then negated difference else difference;
        fee = gross *ℚ bps costs.fee_bps;
      })
