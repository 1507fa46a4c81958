-- ===== src/Ledger/OutcomeExamples.antt =====
-- A paper purchase that the broker filled, through internal/ledger/tradingcore_adapter.go.
use trading_bot.Ledger.Order.{
  upsert_filled_order, new_order, fill_order, remaining_of, same_dimensions,
}
use trading_bot.Ledger.Position.{apply_position, buy_position, bought, new_position}
use trading_bot.Ledger.Command.{
  prepare, validate_fill, with_cost_model, with_defaults, check_command, with_time, string_or_nil,
  nonempty,
}
use trading_bot.Ledger.Fill.{
  apply_fill, fill_transaction, post_fill, charge_wallet, cash_delta_of, fill_row, fill_events,
  fill_event, fee_event,
}
use trading_bot.Accounting.Decimal.{add, sub, mul, negate, round_quotient}
use trading_bot.Ledger.Error.{require_primary_account}
use trading_bot.Ledger.IngestionLaws.{IsSound, record_broker_outcome-IsSound}
use trading_bot.Ledger.PlanLaws.{Every, IsPlanned, validate-IsPlanned}
use trading_bot.Ledger.IngestionOnce.{record_broker_outcome-once}
use trading_bot.Ledger.Outcome.{
  validate_broker_outcome, check_intents, accept_orders, accept_order, plan_order, execute_fills,
  check_fill, check_remaining, reject_orders, fill_command,
}
use trading_bot.Base.{
  ◌≡◌, refl, Bool, true, false, none, some, [], ◌∷◌, arith, neg, ◌+ℤ◌, ◌-ℤ◌, is_blank, equal_fold,
  ◌*ℤ◌, pos,
}
use trading_bot.Base.Statements.{ok, err}
use trading_bot.Ledger.Store.{
  Result, create_order, transaction, begin_batch, require_ready, create_position, save_order,
}
use trading_bot.Ledger.Examples.{
  environment, later, funded, whole, funded-Books, same_currency, funded-Solvent,
}
use trading_bot.TradingCore.Contracts.{
  OrderIntent, OrderType, BrokerBatchOutcome, OrderSide, BrokerOrderStatus, OutcomeCompleteness,
}
use trading_bot.TradingCore.Rollout.{ExecutionMode}
use trading_bot.Ledger.Ingestion.{
  OutcomeTables, Digests, record_broker_outcome, record_once, ingest, record_plans, record_plan,
  apply_child, apply_commands, finish_order, new_outcome_order,
}

abbrev intent : OrderIntent
intent = record {
  id = "o1";
  idempotency_key = "k1";
  account_id = "primary";
  instrument = record {
    id = "BTC-USDT";
    venue = "paper";
    base_asset = "BTC";
    quote_asset = "USDT";
  };
  side = OrderSide.buy;
  order_type = OrderType.market_order;
  quantity = whole 2;
  limit_price = none;
  reference_price = some (whole 100);
  signal_at = 10;
  decision_at = 20;
  created_at = 30;
  execution_mode = ExecutionMode.paper;
  quantity_semantics = "exact_quantity";
  priority = pos 0;
  reason = "entry";
  versions = record { strategy = "s"; policy = "p"; model = "m" };
  metadata = ("cost_policy_version", "c1") ∷ [];
}

abbrev outcome : BrokerBatchOutcome
outcome = record {
  completeness = OutcomeCompleteness.complete;
  accepted =
      (record {
        order_id = "o1";
        provider_order_id = "po1";
        status = BrokerOrderStatus.filled;
        accepted_at = 40;
        remaining = none;
        fills =
            (record {
              id = "f1";
              provider_fill_id = "pf1";
              instrument_id = "BTC-USDT";
              side = OrderSide.buy;
              quantity = whole 2;
              price = whole 101;
              fee = whole 1;
              fee_asset = "USDT";
              filled_at = 50;
              source = "paper";
              cost_model_version = "c1";
            })
            ∷ [];
      })
      ∷ [];
  rejected = [];
}

abbrev digests : Digests
digests = record { identity = λ keys. "outcome"; payload = λ plans o. "payload" }

abbrev tables : OutcomeTables
tables = record { ledger = funded; ingestions = [] }

funded-IsSound : IsSound "USDT" funded
funded-IsSound = record { books = funded-Books; solvent = funded-Solvent; uses = same_currency }

record_broker_outcome-IsSound_example :
    IsSound "USDT" (record_broker_outcome environment digests (intent ∷ []) outcome tables).1.ledger
record_broker_outcome-IsSound_example =
    record_broker_outcome-IsSound environment digests "USDT" (intent ∷ []) outcome tables refl
      funded-IsSound

abbrev is_ok : {A : Type 0} → Result A → Bool
is_ok (ok a) = true
is_ok (err e) = false

accepted_outcome : {A : Type 0} (r : Result A) → is_ok r ≡ true → (a : A) × (r ≡ ok a)
accepted_outcome (ok a) h = (a, refl)
accepted_outcome (err e) h = ground arith

validated : is_ok (validate_broker_outcome (intent ∷ []) outcome) ≡ true
unfolding validate_broker_outcome check_intents require_primary_account accept_orders accept_order
    plan_order execute_fills check_fill check_remaining add ◌+ℤ◌ sub ◌-ℤ◌ reject_orders fill_command
validated = refl

validate-IsPlanned_example :
    Every
      (IsPlanned (intent ∷ []))
      (accepted_outcome (validate_broker_outcome (intent ∷ []) outcome) validated).0
validate-IsPlanned_example =
    validate-IsPlanned (intent ∷ []) outcome
      (accepted_outcome (validate_broker_outcome (intent ∷ []) outcome) validated).0
      (accepted_outcome (validate_broker_outcome (intent ∷ []) outcome) validated).1

abbrev recorded : Result (Unit {0}) × OutcomeTables
recorded = record_broker_outcome environment digests (intent ∷ []) outcome tables

paired : (x : Result (Unit {0}) × OutcomeTables) → is_ok x.0 ≡ true → x ≡ (ok tt, x.1)
paired (ok u, t) h = refl
paired (err e, t) h = ground arith

record_ok : is_ok recorded.0 ≡ true
unfolding record_broker_outcome validate_broker_outcome check_intents require_primary_account
    accept_orders accept_order plan_order execute_fills check_fill check_remaining add ◌+ℤ◌ sub ◌-ℤ◌
    reject_orders fill_command record_once ingest record_plans record_plan apply_child
    apply_commands finish_order new_outcome_order create_order apply_fill prepare validate_fill
    with_cost_model with_defaults check_command with_time transaction fill_transaction begin_batch
    require_ready post_fill charge_wallet cash_delta_of apply_position buy_position create_position
    bought new_position upsert_filled_order new_order fill_order remaining_of same_dimensions
    save_order fill_row fill_events fill_event fee_event is_blank equal_fold mul negate
    round_quotient string_or_nil nonempty ◌*ℤ◌ neg
record_ok = refl

record_broker_outcome-once_example :
    record_broker_outcome later digests (intent ∷ []) outcome recorded.1 ≡ (ok tt, recorded.1)
record_broker_outcome-once_example =
    record_broker_outcome-once environment later digests (intent ∷ []) outcome tables recorded.1
      (paired recorded record_ok)
