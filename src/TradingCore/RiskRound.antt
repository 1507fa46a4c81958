-- ===== src/TradingCore/RiskRound.antt =====
-- The checks of one intent in `Evaluate` (internal/tradingcore/risk.go), and what its approval spends.
use trading_bot.Base.{
  ◌+◌, Bool, true, false, not, ◌&&◌, Option, none, some, List, [], ◌∷◌, String, if◌then◌else◌,
  str_eq, ◌==◌, ltb, pos, ltb_ℤ, leb_ℤ, length,
}
use trading_bot.Base.Rational.{Rational, ◌+ℚ◌, ◌-ℚ◌, ◌*ℚ◌}
use trading_bot.Accounting.Decimal.{Decimal}
use trading_bot.TradingCore.Rollout.{ExecutionMode}
use trading_bot.TradingCore.Contracts.{OrderIntent, OrderSide, eq_side}
use trading_bot.TradingCore.Exact.{decimal_rat, normalized_quantity}
use trading_bot.TradingCore.Portfolio.{RiskPolicy, PortfolioSnapshot}
use trading_bot.TradingCore.Risk.{
  RiskTotals, Sizing, Reservation, pending_conflict, existing_count, pyramid_layers, count_new_buys,
  cap_intent, cost_reservation,
}

abbrev pub is_unauthorized : ExecutionMode → Bool
is_unauthorized ExecutionMode.research = true
is_unauthorized ExecutionMode.shadow = true
is_unauthorized ExecutionMode.live_dry_run = true
is_unauthorized _ = false

-- The checks before the caps: the name of the check, if it is traced, and the code.
abbrev pub Refusal : Type 0
Refusal = Option (List String × String)

unfoldable pub refuse :
    RiskPolicy → PortfolioSnapshot → List OrderIntent → OrderIntent → Option Decimal → Refusal
refuse policy portfolio approved intent price =
    (let positions = portfolio.positions in
      let buys = eq_side intent.side OrderSide.buy in
      let held = existing_count positions intent.instrument in
      if is_unauthorized intent.execution_mode
      then some ([], "execution_not_authorized")
      else if not (elim price [ some p ↦ true | none ↦ false ])
      then some ([], "valuation_price_required")
      else if pending_conflict portfolio.pending intent
      then some ("pending_conflict" ∷ [], "pending_order_conflict")
      else if buys && ltb 0 held && not policy.pyramiding_enabled
      then some ("pyramiding" ∷ [], "position_exists")
      else if buys
          && policy.pyramiding_enabled
          && ltb_ℤ (pos 0) policy.max_pyramid_layers
          && leb_ℤ policy.max_pyramid_layers (pos (pyramid_layers positions intent.instrument))
      then some ("pyramid_layers" ∷ [], "max_pyramid_layers_reached")
      else if ltb_ℤ (pos 0) policy.max_concurrent_orders
          && leb_ℤ policy.max_concurrent_orders (pos (length portfolio.pending + length approved))
      then some ("concurrency" ∷ [], "max_concurrent_orders_reached")
      else if buys
          && held == 0
          && ltb_ℤ (pos 0) policy.max_positions
          && leb_ℤ policy.max_positions (pos (length positions + count_new_buys approved positions))
      then some ("positions" ∷ [], "max_positions_reached")
      else none)

-- The lot of a quantity that the caps let through.
unfoldable pub fit_lot : RiskPolicy → Sizing → Sizing
fit_lot policy (quantity, some e) = (quantity, some e)
fit_lot policy (quantity, none) = elim (normalized_quantity quantity policy.lot_size) [
  | none ↦ (quantity, some "quantity_below_lot_size")
  | some q ↦ (q, none)
]

-- The quantity of an intent and the code of its rejection.
unfoldable pub size_intent :
    RiskPolicy → PortfolioSnapshot → RiskTotals → OrderIntent → Option Decimal → Refusal → Sizing
size_intent policy portfolio totals intent price (some (checks, e)) =
    (decimal_rat intent.quantity, some e)
size_intent policy portfolio totals intent none none =
    (decimal_rat intent.quantity, some "valuation_price_required")
size_intent policy portfolio totals intent (some p) none =
    fit_lot policy
      (cap_intent (decimal_rat intent.quantity) intent p portfolio.positions totals policy)

abbrev pub traced_checks : Refusal → List String
traced_checks none =
    "execution_authority" ∷ "position_exposure" ∷ "gross_exposure" ∷ "turnover" ∷ "cash"
    ∷ "lot_size" ∷ []
traced_checks (some (checks, e)) = "execution_authority" ∷ checks

-- `cash[asset].Sub(cash[asset], amount)`; the entry is there, since the caps read it.
abbrev pub take_cash : String → Rational → List (String × Rational) → List (String × Rational)
take_cash asset amount [] = []
take_cash asset amount ((a, c) ∷ cs) =
    (let rest = take_cash asset amount cs in
      if str_eq a asset then (a, c -ℚ amount) ∷ cs else (a, c) ∷ rest)

-- The limits after an approval.
abbrev pub spend_side : OrderSide → String → Rational → Reservation → RiskTotals → RiskTotals
spend_side OrderSide.buy asset reference costs t = record {
  gross = t.gross +ℚ reference;
  turnover = t.turnover +ℚ costs.gross;
  cash = take_cash asset (costs.gross +ℚ costs.fee) t.cash;
}
spend_side OrderSide.sell asset reference costs t = record t {
  gross = t.gross -ℚ reference;
  turnover = t.turnover +ℚ costs.gross;
}

unfoldable pub spend : RiskPolicy → OrderIntent → Decimal → Rational → RiskTotals → RiskTotals
spend policy intent price quantity totals =
    spend_side intent.side intent.instrument.quote_asset (quantity *ℚ decimal_rat price)
      (cost_reservation quantity price intent.side policy.execution_costs) totals
