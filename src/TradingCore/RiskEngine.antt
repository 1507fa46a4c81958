-- ===== src/TradingCore/RiskEngine.antt =====
-- `PortfolioRiskEngine.Evaluate` of internal/tradingcore/risk.go. `format_int` is strconv.FormatInt.
-- A text of an exact amount in a trace is its Decimal; an amount that is not set is absent.
use trading_bot.Base.{
  Bool, Option, none, some, List, [], ◌∷◌, ◌++◌, String, if◌then◌else◌, ℤ, pos, less_text,
}
use trading_bot.Base.Sorting.{sort_stable}
use trading_bot.Base.Entries.{set_key}
use trading_bot.Base.Statements.{Outcome, ok, err}
use trading_bot.Base.Rational.{Rational, ◌-ℚ◌, ◌*ℚ◌, is_positive_ℚ}
use trading_bot.Base.Rational.Order.{zero_ℚ}
use trading_bot.Accounting.Decimal.{Decimal}
use trading_bot.TradingCore.Rollout.{ExecutionMode}
use trading_bot.TradingCore.Contracts.{OrderIntent, OrderSide, OrderType, OrderRejection}
use trading_bot.TradingCore.Orders.{OrderFault, new_order_intent, new_decision_batch}
use trading_bot.TradingCore.Orchestrator.{RiskDecision}
use trading_bot.TradingCore.Exact.{decimal_rat, rat_decimal, quantity_from_rat}
use trading_bot.TradingCore.Portfolio.{
  RiskPolicy, PolicyFault, PortfolioSnapshot, is_valid, validate_policy,
}
use trading_bot.TradingCore.Risk.{
  RiskTotals, Sizing, portfolio_gross, intent_price, cost_reservation, cash_of,
}
use trading_bot.TradingCore.RiskRound.{Refusal, refuse, size_intent, traced_checks, spend}

pub record RiskTrace : Type 0 where
  pub order_id : String
  pub policy_version : String
  pub checks : List String
  pub requested_quantity : Decimal
  pub approved_quantity : Decimal
  pub requested_notional : Option Decimal
  pub approved_notional : Option Decimal
  pub priority : ℤ
  pub cost_policy_version : String
  pub reserved_fee : Option Decimal
  pub reserved_slippage : Option Decimal
  pub pre_cash : Decimal
  pub post_cash : Decimal
  pub pre_gross_exposure : Decimal
  pub post_gross_exposure : Decimal
  pub pre_turnover : Decimal
  pub post_turnover : Decimal

-- The zero OrderIntent; its side is neither buy nor sell, and is read only as not a buy.
abbrev zero_intent : OrderIntent
zero_intent = record {
  id = "";
  idempotency_key = "";
  account_id = "";
  instrument = record { id = ""; venue = ""; base_asset = ""; quote_asset = "" };
  side = OrderSide.sell;
  order_type = OrderType.other_type;
  quantity = record { value = none };
  limit_price = none;
  reference_price = none;
  signal_at = 0;
  decision_at = 0;
  created_at = 0;
  execution_mode = ExecutionMode.other_mode;
  quantity_semantics = "";
  priority = pos 0;
  reason = "";
  versions = record { strategy = ""; policy = ""; model = "" };
  metadata = [];
}

pub record Evaluation : Type 0 where
  pub totals : RiskTotals
  pub approved : List OrderIntent
  pub rejected : List OrderRejection
  pub traces : List RiskTrace

pub data RiskFault : Type 0 where
  invalid_policy : PolicyFault → RiskFault
  invalid_order : OrderFault → RiskFault

abbrev pub reject : OrderIntent → String → Evaluation → Evaluation
reject intent code e = record e {
  rejected = e.rejected ++ record { order_id = intent.id; code = code } ∷ [];
}

abbrev or_zero_ℚ : Option Rational → Rational
or_zero_ℚ none = zero_ℚ
or_zero_ℚ (some c) = c

-- The costs in the trace, for a price and a positive quantity.
abbrev traced : {A : Type 0} → Option Decimal → Rational → (Decimal → A) → Option A
traced none q f = none
traced (some p) q f = if is_positive_ℚ q then some (f p) else none

unfoldable pub trace_intent :
    RiskPolicy
    → OrderIntent
    → Option Decimal
    → Refusal
    → Rational
    → RiskTotals
    → RiskTotals
    → RiskTrace
trace_intent policy intent price refusal q before after =
    (let costs = policy.execution_costs in
      let reserved = λ (p : Decimal). cost_reservation q p intent.side costs in
      let asset = intent.instrument.quote_asset in
      record {
        order_id = intent.id;
        policy_version = policy.version;
        checks = traced_checks refusal;
        requested_quantity = intent.quantity;
        approved_quantity = rat_decimal q;
        requested_notional =
            traced price q λ p. rat_decimal (decimal_rat intent.quantity *ℚ decimal_rat p);
        approved_notional = traced price q λ p. rat_decimal (reserved p).gross;
        priority = intent.priority;
        cost_policy_version = costs.version;
        reserved_fee = traced price q λ p. rat_decimal (reserved p).fee;
        reserved_slippage = traced price q λ p. rat_decimal (reserved p).slippage;
        pre_cash = rat_decimal (or_zero_ℚ (cash_of asset before.cash));
        post_cash = rat_decimal (or_zero_ℚ (cash_of asset after.cash));
        pre_gross_exposure = rat_decimal before.gross;
        post_gross_exposure = rat_decimal after.gross;
        pre_turnover = rat_decimal before.turnover;
        post_turnover = rat_decimal after.turnover;
      })

abbrev available : RiskPolicy → List (String × Decimal) → List (String × Rational)
available policy [] = []
available policy ((a, c) ∷ cs) =
    (
      a,
      (if is_valid policy.cash_reserve
          then decimal_rat c -ℚ decimal_rat policy.cash_reserve
          else decimal_rat c),
    )
    ∷ available policy cs

unfoldable pub opening_totals : RiskPolicy → PortfolioSnapshot → RiskTotals
opening_totals policy portfolio = record {
  gross =
      if portfolio.risk.known
      then decimal_rat portfolio.risk.gross_exposure
      else portfolio_gross portfolio.positions;
  turnover = if portfolio.risk.known then decimal_rat portfolio.risk.turnover else zero_ℚ;
  cash = available policy portfolio.cash;
}

unfoldable pub opening : RiskPolicy → PortfolioSnapshot → Evaluation
opening policy portfolio = record {
  totals = opening_totals policy portfolio;
  approved = [];
  rejected = [];
  traces = [];
}

abbrev pub before_rejection : OrderRejection → OrderRejection → Bool
before_rejection r s = less_text r.order_id s.order_id

-- `NewRiskDecisionWithTrace` of a batch of the approved.
unfoldable pub decide_batch : Evaluation → Outcome RiskFault (RiskDecision × List RiskTrace)
decide_batch e = elim (new_decision_batch e.approved) [
  | err f ↦ err (invalid_order f)
  | ok batch ↦
      ok (record { approved = batch; rejected = sort_stable before_rejection e.rejected }, e.traces)
]

module _ (format_int : ℤ → String) where
  -- `intent, _ = NewOrderIntent(intent, metadata)`
  unfoldable pub approve_intent : RiskPolicy → Decimal → OrderIntent → OrderIntent
  approve_intent policy quantity intent =
      (let costs = policy.execution_costs in
        let metadata = set_key "slippage_bps" (format_int costs.adverse_slippage_bps) (
          set_key "fee_bps" (format_int costs.fee_bps)
            (set_key "cost_policy_version" costs.version intent.metadata)) in
        let changed = record intent {
          quantity = quantity;
          versions = record (intent.versions) { policy = policy.version };
        } in
        elim (new_order_intent changed metadata) [ ok i ↦ i | err e ↦ zero_intent ])

  -- The verdict on an intent: the quantity, rounded, may still be none.
  unfoldable pub settle_intent :
      RiskPolicy → OrderIntent → Option Decimal → Sizing → Evaluation → Evaluation
  settle_intent policy intent price (q, some code) e = reject intent code e
  settle_intent policy intent none (q, none) e = reject intent "valuation_price_required" e
  settle_intent policy intent (some p) (q, none) e = elim (quantity_from_rat q) [
    | none ↦ reject intent "quantity_below_lot_size" e
    | some d ↦ record e {
      approved = e.approved ++ approve_intent policy d intent ∷ [];
      totals = spend policy intent p q e.totals;
    }
  ]

  -- One round of the loop.
  unfoldable pub evaluate_intent :
      RiskPolicy → PortfolioSnapshot → OrderIntent → Evaluation → Evaluation
  evaluate_intent policy portfolio intent e =
      (let price = intent_price intent portfolio in
        let refusal = refuse policy portfolio e.approved intent price in
        let sizing = size_intent policy portfolio e.totals intent price refusal in
        let settled = settle_intent policy intent price sizing e in
        record settled {
          traces =
              e.traces
              ++ trace_intent policy intent price refusal sizing.0 e.totals settled.totals ∷ [];
        })

  unfoldable pub evaluate_intents :
      RiskPolicy → PortfolioSnapshot → List OrderIntent → Evaluation → Evaluation
  evaluate_intents policy portfolio [] e = e
  evaluate_intents policy portfolio (i ∷ is) e =
      evaluate_intents policy portfolio is (evaluate_intent policy portfolio i e)

  unfoldable pub evaluate :
      List OrderIntent
      → PortfolioSnapshot
      → RiskPolicy
      → Outcome RiskFault (RiskDecision × List RiskTrace)
  evaluate batch portfolio policy = elim (validate_policy policy) [
    | some f ↦ err (invalid_policy f)
    | none ↦ decide_batch (evaluate_intents policy portfolio batch (opening policy portfolio))
  ]
