-- ===== src/Ledger/Ingestion.antt =====
-- `RecordBrokerOutcome` of internal/ledger/tradingcore_adapter.go: the orders and the fills of a
-- broker's outcome, in one transaction and once.
-- The second lookup, after a failed transaction, serves concurrent retries and is not modelled.
use trading_bot.Ledger.Command.{FillCommand}
use trading_bot.Ledger.Rows.{Database, Order}
use trading_bot.Ledger.Error.{err_idempotency_conflict, normalize_persistence_error}
use trading_bot.Base.{
  ℕ, Option, none, some, List, [], ◌∷◌, ◌++◌, String, if◌then◌else◌, str_eq, ◌==◌, pos,
}
use trading_bot.Accounting.Decimal.{units, sub}
use trading_bot.Base.Statements.{ok, err, find, ◌>>=◌, ◌>>◌, modify, pure}
use trading_bot.Ledger.Store.{Result, Statement, create_order}
use trading_bot.Ledger.Fill.{Environment, FillResult, apply_fill}
use trading_bot.TradingCore.Contracts.{
  OrderIntent, BrokerBatchOutcome, status_name, side_name, mode_name,
}
use trading_bot.Ledger.Outcome.{OutcomePlan, validate_broker_outcome, is_filled}

-- A row of the table of broker outcomes.
pub record BrokerOutcomeIngestion : Type 0 where
  pub id : String
  pub account_id : String
  pub payload_hash : String
  pub created_at : ℕ

-- The tables of the ledger, and the one that only this operation writes.
pub record OutcomeTables : Type 0 where
  pub ledger : Database
  pub ingestions : List BrokerOutcomeIngestion

-- The digests that name an outcome: of the intents' keys, and of the plans and the rejections.
pub record Digests : Type 0 where
  pub identity : List String → String
  pub payload : List OutcomePlan → BrokerBatchOutcome → String

unfoldable pub new_outcome_order : OutcomePlan → Order
new_outcome_order item = record {
  id = 0;
  order_type = side_name item.intent.side;
  account_id = item.intent.account_id;
  symbol = item.symbol;
  amount_crypto_exact = some (units (pos 0));
  requested_quantity_exact = some item.requested;
  executed_quantity_exact = some (units (pos 0));
  remaining_quantity_exact = some item.requested;
  amount_usdt_exact = some (units (pos 0));
  fee_exact = some (units (pos 0));
  ledger_batch_id = none;
  exchange_order_id = some item.accepted.provider_order_id;
  client_order_id = some item.intent.idempotency_key;
  status = "accepted";
  execution_mode = mode_name item.intent.execution_mode;
  policy_version = item.intent.versions.policy;
  trigger_reason = none;
  submitted_at = some item.accepted.accepted_at;
  filled_at = none;
  executed_at = item.accepted.accepted_at;
}

-- The columns that the last update of an order sets.
unfoldable pub finish_order : OutcomePlan → Order → Order
finish_order item o = record o {
  status = status_name item.accepted.status;
  requested_quantity_exact = some item.requested;
  executed_quantity_exact = some (sub item.requested item.remaining);
  remaining_quantity_exact = some item.remaining;
  filled_at =
      if is_filled item.accepted.status then some item.accepted.accepted_at else o.filled_at;
}

abbrev pub update_order : ℕ → (Order → Order) → List Order → List Order
update_order id f [] = []
update_order id f (o ∷ os) = (if o.id == id then f o else o) ∷ update_order id f os

module _ (env : Environment) where
  -- `ApplyFill` inside the transaction: an error of its own ends the whole.
  unfoldable pub apply_child : FillCommand → Statement FillResult
  apply_child c db = elim ((apply_fill env c db).0) [
    | err e ↦ err e
    | ok r ↦ ok (r, (apply_fill env c db).1)
  ]

  unfoldable pub apply_commands : ℕ → List FillCommand → Statement (Unit {0})
  apply_commands order_id [] = pure tt
  apply_commands order_id (c ∷ cs) =
      apply_child (record c { existing_order_id = order_id }) >>= λ r. apply_commands order_id cs

  unfoldable pub record_plan : OutcomePlan → Statement (Unit {0})
  record_plan item = do
    order ← create_order (new_outcome_order item)
    apply_commands order.id item.commands
    modify (λ db. record db { orders = update_order order.id (finish_order item) db.orders })

  unfoldable pub record_plans : List OutcomePlan → Statement (Unit {0})
  record_plans [] = pure tt
  record_plans (item ∷ items) = record_plan item >> record_plans items

  abbrev pub account_of : List OutcomePlan → String
  account_of [] = "primary"
  account_of (item ∷ items) = item.intent.account_id

  abbrev pub ingestion_of : String → List BrokerOutcomeIngestion → Option BrokerOutcomeIngestion
  ingestion_of id = find (λ i. str_eq i.id id)

  -- The end of the transaction.
  unfoldable pub ingest :
      BrokerOutcomeIngestion
      → OutcomeTables
      → Result (Unit {0} × Database)
      → Result (Unit {0}) × OutcomeTables
  ingest row books (err e) = (err (normalize_persistence_error e), books)
  ingest row books (ok (u, db)) =
      (ok tt, record { ledger = db; ingestions = books.ingestions ++ row ∷ [] })

  unfoldable pub record_once :
      String → String → List OutcomePlan → OutcomeTables → Result (Unit {0}) × OutcomeTables
  record_once identity payload plans books = elim (ingestion_of identity books.ingestions) [
    | some existing ↦
        if str_eq existing.payload_hash payload
        then (ok tt, books)
        else (err err_idempotency_conflict, books)
    | none ↦
        ingest
          (record {
            id = identity;
            account_id = account_of plans;
            payload_hash = payload;
            created_at = env.now;
          })
          books (record_plans plans books.ledger)
  ]

  abbrev pub keys_of : List OrderIntent → List String
  keys_of [] = []
  keys_of (i ∷ is) = i.idempotency_key ∷ keys_of is

  unfoldable pub record_broker_outcome :
      Digests
      → List OrderIntent
      → BrokerBatchOutcome
      → OutcomeTables
      → Result (Unit {0}) × OutcomeTables
  record_broker_outcome digests approved outcome books =
      elim (validate_broker_outcome approved outcome) [
        | err e ↦ (err e, books)
        | ok plans ↦
            record_once (digests.identity (keys_of approved)) (digests.payload plans outcome) plans
              books
      ]
