-- ===== src/TradingCore/RiskExamples.antt =====
-- The risk engine (internal/tradingcore/risk.go) on a portfolio of 1000 USDT and 2 BTC.
use mathlib.Core.List.{map, Perm}
use trading_bot.Base.{
  ℕ, ◌*◌, ◌≡◌, refl, true, false, none, some, List, [], ◌∷◌, String, ℤ, pos, neg, ◌+ℤ◌, ◌-ℤ◌, ◌^◌,
  ◌*ℤ◌, quo, rem, ◌↔◌,
}
use trading_bot.Base.Sorting.{sort_stable, place}
use trading_bot.Base.Statements.{Outcome, ok, err}
use trading_bot.Base.Rational.{◌+ℚ◌, ◌-ℚ◌, ◌*ℚ◌, leb_ℚ, ◌/ℚ◌, negated, Rational, ratio}
use trading_bot.Accounting.Decimal.{Decimal, units}
use trading_bot.TradingCore.Rollout.{ExecutionMode}
use trading_bot.TradingCore.Contracts.{OrderIntent, OrderSide, OrderType, Instrument}
use trading_bot.TradingCore.Orders.{
  validate_intent, first_fault, new_order_intent, new_decision_batch, comes_before,
}
use trading_bot.TradingCore.Exact.{rat_decimal, quantity_from_rat, normalized_quantity}
use trading_bot.TradingCore.Portfolio.{
  ExecutionCostPolicy, RiskPolicy, PortfolioSnapshot, validate_policy, validate_costs,
}
use trading_bot.TradingCore.Risk.{
  portfolio_gross, cap_intent, cap_by, cap_cash, cap_holding, existing_count, pyramid_layers,
  pending_conflict, count_new_buys, intent_price, instrument_exposure, position_quantity,
  cost_reservation,
}
use trading_bot.TradingCore.RiskEngine.{
  Evaluation, evaluate, evaluate_intent, evaluate_intents, opening, RiskTrace, opening_totals,
  RiskFault, decide_batch, settle_intent, approve_intent, trace_intent,
}
use trading_bot.TradingCore.RiskRound.{size_intent, fit_lot, refuse, spend}
use trading_bot.TradingCore.Orchestrator.{RiskDecision}
use trading_bot.TradingCore.RiskGranted.{cap_intent-granted_iff}
use trading_bot.TradingCore.RiskSizing.{IsSized}
use trading_bot.TradingCore.Exact.{decimal_rat}
use trading_bot.TradingCore.RiskAnswers.{answered, evaluate-answered}

abbrev whole : ℕ → Decimal
whole n = units (pos (n * 10 ^ 18))

abbrev whole_rat : ℕ → Rational
whole_rat n = decimal_rat (whole n)

abbrev unset : Decimal
unset = record { value = none }

abbrev costs : ExecutionCostPolicy
costs = record { version = "c1"; fee_bps = pos 10; adverse_slippage_bps = pos 20 }

abbrev policy : RiskPolicy
policy = record {
  version = "p1";
  max_positions = pos 5;
  max_gross_exposure = whole 700;
  max_position_value = whole 600;
  max_turnover = whole 900;
  cash_reserve = whole 100;
  max_concurrent_orders = pos 0;
  pyramiding_enabled = true;
  max_pyramid_layers = pos 0;
  lot_size = whole 1;
  execution_costs = costs;
}

abbrev btc : Instrument
btc = record { id = "BTC-USDT"; venue = "paper"; base_asset = "BTC"; quote_asset = "USDT" }

abbrev portfolio : PortfolioSnapshot
portfolio = record {
  as_of = 50;
  cash = ("USDT", whole 1000) ∷ [];
  positions =
      record {
        id = "held";
        instrument = btc;
        quantity = whole 2;
        mark_price = whole 100;
        pyramid_layers = 1;
      }
      ∷ [];
  pending = [];
  risk = record { known = false; gross_exposure = unset; turnover = unset };
}

abbrev order : String → OrderSide → ℕ → OrderIntent
order id side quantity = record {
  id = id;
  idempotency_key = id;
  account_id = "primary";
  instrument = btc;
  side = side;
  order_type = OrderType.market_order;
  quantity = whole quantity;
  limit_price = none;
  reference_price = some (whole 100);
  signal_at = 10;
  decision_at = 20;
  created_at = 30;
  execution_mode = ExecutionMode.paper;
  quantity_semantics = "exact_quantity";
  priority = pos 0;
  reason = "entry";
  versions = record { strategy = "s"; policy = ""; model = "m" };
  metadata = [];
}

abbrev batch : List OrderIntent
batch = order "b1" OrderSide.buy 9 ∷ order "s1" OrderSide.sell 1 ∷ []

abbrev number : ℤ → String
number z = "n"

abbrev start : Evaluation
start = opening policy portfolio

evaluate-answered_example :
    (d : RiskDecision) × (traces : List RiskTrace) × (evaluate number batch portfolio policy
      ≡ ok (d, traces))
    × Perm (answered d.approved d.rejected) (map (λ (i : OrderIntent). i.id) batch)
unfolding validate_policy first_fault validate_intent ◌+ℤ◌ ◌-ℤ◌ neg
evaluate-answered_example = evaluate-answered number batch portfolio policy refl refl

abbrev quantities : Outcome RiskFault (RiskDecision × List RiskTrace) → List Decimal
quantities (ok (d, t)) = map (λ (i : OrderIntent). i.quantity) d.approved
quantities (err e) = []

approved_quantities : List OrderIntent → List Decimal
unfolding evaluate validate_policy validate_costs decide_batch new_decision_batch first_fault
    validate_intent sort_stable place comes_before evaluate_intents evaluate_intent settle_intent
    size_intent fit_lot normalized_quantity cap_intent cap_by cap_cash cap_holding refuse
    existing_count pyramid_layers pending_conflict count_new_buys intent_price instrument_exposure
    position_quantity portfolio_gross opening opening_totals spend cost_reservation approve_intent
    new_order_intent quantity_from_rat rat_decimal leb_ℚ ◌+ℚ◌ ◌-ℚ◌ ◌*ℚ◌ ◌/ℚ◌ negated ◌+ℤ◌ ◌-ℤ◌ ◌*ℤ◌
    neg quo rem trace_intent
approved_quantities is = quantities (evaluate number is portfolio policy)

-- The buy is cut to the value of its position, in whole lots.
capped : approved_quantities batch ≡ whole 4 ∷ whole 1 ∷ []
unfolding approved_quantities
capped = refl

-- Two sales of one batch, each of all that is held.
sold_twice :
    approved_quantities (order "s1" OrderSide.sell 2 ∷ order "s2" OrderSide.sell 2 ∷ [])
    ≡ whole 2 ∷ whole 2 ∷ []
unfolding approved_quantities
sold_twice = refl

-- A third of 200 is rounded up, to a quantity that is worth more than 200 at price 3.
rounded_up : rat_decimal (ratio (pos 200) 3) ≡ units (pos 66666666666666666667)
unfolding rat_decimal quo rem ◌*ℤ◌ ◌+ℤ◌ ◌-ℤ◌
rounded_up = refl

-- Basis points whose sum overflows pass the validation.
overflowing :
    validate_costs
      (record { version = "c1"; fee_bps = pos (2 ^ 62); adverse_slippage_bps = pos (2 ^ 62) })
    ≡ none
unfolding validate_costs ◌+ℤ◌ ◌-ℤ◌ neg
overflowing = refl

cap_intent-granted_iff_example :
    (cap_intent
        (whole_rat 9)
        (order "b1" OrderSide.buy 9)
        (whole 100)
        portfolio.positions
        start.totals
        policy
      ≡ (whole_rat 9, none))
    ↔ IsSized policy
        (order "b1" OrderSide.buy 9)
        (whole 100)
        portfolio.positions
        start.totals
        (whole_rat 9)
unfolding validate_policy ◌+ℤ◌ ◌-ℤ◌ neg
cap_intent-granted_iff_example =
    cap_intent-granted_iff (order "b1" OrderSide.buy 9) (whole 100) portfolio.positions start.totals
      policy refl refl refl
