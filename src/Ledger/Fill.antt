-- ===== src/Ledger/Fill.antt =====
-- `ApplyFill` of internal/ledger/service.go: one fill, its postings and its projections in one
-- transaction.
use trading_bot.Base.{
  ℕ, Bool, true, false, not, ◌||◌, Option, none, some, List, [], ◌∷◌, ◌++◌, String, if◌then◌else◌,
  ◌==◌, str_eq, equal_fold,
}
use Prim.Native.String.{◌++◌ as append}
use trading_bot.Accounting.Decimal.{Decimal, add, sub, mul, negate, is_negative, is_positive, zero}
use trading_bot.Ledger.Error.{
  Failure, validation, record_not_found, err_projection_unavailable, err_insufficient_cash,
}
use trading_bot.Ledger.Rows.{Wallet, Position, Order, Fill, LedgerEvent, Database}
use trading_bot.Ledger.Store.{
  Result, ok, err, Statement, ◌>>=◌, ◌>>◌, pure, get, or_fail, guard, check, modify, find,
  transaction, require_ready, begin_batch,
}
use trading_bot.Ledger.Command.{FillCommand, prepare, nonempty, string_or_nil}
use trading_bot.Ledger.Position.{PositionChange, apply_position}
use trading_bot.Ledger.Order.{upsert_filled_order}

-- What the service is given: the clock, the hash of a command's JSON, the identifiers made from a
-- kind and a key, the hook that tests install after each write, and the two statements that open
-- a transaction (the writer role and the account's lock), as the errors that they may return.
pub record Environment : Type 0 where
  pub now : ℕ
  pub payload_hash : FillCommand → String
  pub stable_id : String → String → String
  pub after_write : String → Option Failure
  pub set_role : Option Failure
  pub lock_account : String → Option Failure

pub record FillResult : Type 0 where
  pub already_applied : Bool
  pub wallet : Wallet
  pub position : Position
  pub order : Order
  pub fill : Fill

-- The signed postings of a fill.
abbrev pub gross_of : FillCommand → Decimal
gross_of c = mul c.quantity c.fill_price

unfoldable pub cash_delta_of : FillCommand → Decimal
cash_delta_of c = if str_eq c.side "buy" then negate (gross_of c) else gross_of c

unfoldable pub asset_delta_of : FillCommand → Decimal
asset_delta_of c = if str_eq c.side "buy" then c.quantity else negate c.quantity

-- `loadFillResult`, for a batch that was applied before.
unfoldable pub load_fill_result : String → Statement FillResult
load_fill_result batch = do
  fill ←
      or_fail (← get (λ db. find (λ f. str_eq f.ledger_batch_id batch) db.fills)) record_not_found
  order ← or_fail (← get (λ db. find (λ o. o.id == fill.order_id) db.orders)) record_not_found
  position ←
      or_fail (← get (λ db. find (λ p. p.id == fill.position_id) db.positions)) record_not_found
  wallet ← or_fail (← get (λ db. db.wallet)) record_not_found
  pure (record {
    already_applied = true;
    wallet = wallet;
    position = position;
    order = order;
    fill = fill;
  })

-- The wallet, its exact balance and the balance after the fill.
unfoldable pub charge_wallet : FillCommand → Statement (Wallet × Decimal)
charge_wallet c = do
  wallet ← or_fail (← get (λ db. db.wallet)) record_not_found
  balance ← or_fail wallet.balance_exact err_projection_unavailable
  guard (equal_fold wallet.currency c.currency) (validation "unsupported_currency")
  let new_cash = sub (add balance (cash_delta_of c)) c.fee
  guard (not (is_negative new_cash)) err_insufficient_cash
  pure (wallet, new_cash)

module _ (env : Environment) where
  unfoldable pub fill_row : FillCommand → Position → Order → Fill
  unfolding string_or_nil
  fill_row c position order = record {
    id = env.stable_id "fill" c.idempotency_key;
    ledger_batch_id = c.idempotency_key;
    account_id = c.account_id;
    order_id = order.id;
    venue_id = c.venue_id;
    provider_fill_id = string_or_nil c.provider_fill_id;
    position_id = position.id;
    symbol = c.symbol;
    side = c.side;
    quantity = c.quantity;
    requested_price = c.requested_price;
    fill_price = c.fill_price;
    gross_amount = gross_of c;
    fee_amount = c.fee;
    fee_type = c.fee_type;
    fee_currency = c.fee_currency;
    execution_mode = c.execution_mode;
    strategy_version = c.strategy_version;
    policy_version = c.policy_version;
    cost_model_version = c.cost_model_version;
    occurred_at = c.occurred_at;
    created_at = env.now;
  }

  unfoldable pub fill_event : FillCommand → PositionChange → Order → Fill → LedgerEvent
  unfolding cash_delta_of asset_delta_of nonempty
  fill_event c change order fill = record {
    id = env.stable_id "event-fill" c.idempotency_key;
    ledger_batch_id = c.idempotency_key;
    sequence = 1;
    idempotency_key = append c.idempotency_key ":fill";
    event_type = if str_eq c.side "sell" then "sell_fill" else "buy_fill";
    account_id = c.account_id;
    venue_id = c.venue_id;
    currency = c.currency;
    symbol = c.symbol;
    cash_delta = cash_delta_of c;
    asset_delta = asset_delta_of c;
    order_id = some order.id;
    fill_id = some fill.id;
    position_id = some change.position.id;
    execution_mode = c.execution_mode;
    strategy_version = c.strategy_version;
    policy_version = c.policy_version;
    actor = nonempty c.actor "execution_adapter";
    reason = c.reason;
    reverses_event_id = none;
    realized_pnl = change.realized;
    cost_basis_delta = change.basis_delta;
    fee_delta = zero;
    occurred_at = c.occurred_at;
    recorded_at = env.now;
  }

  unfoldable pub fee_event : FillCommand → PositionChange → Order → Fill → LedgerEvent
  unfolding nonempty
  fee_event c change order fill = record {
    id = env.stable_id "event-fee" c.idempotency_key;
    ledger_batch_id = c.idempotency_key;
    sequence = 2;
    idempotency_key = append c.idempotency_key ":fee";
    event_type =
        if str_eq c.fee_type "exchange_fee" || str_eq c.execution_mode "exchange"
        then "exchange_fee"
        else "trading_fee";
    account_id = c.account_id;
    venue_id = c.venue_id;
    currency = c.currency;
    symbol = c.symbol;
    cash_delta = negate c.fee;
    asset_delta = zero;
    order_id = some order.id;
    fill_id = some fill.id;
    position_id = some change.position.id;
    execution_mode = c.execution_mode;
    strategy_version = c.strategy_version;
    policy_version = c.policy_version;
    actor = nonempty c.actor "execution_adapter";
    reason = c.reason;
    reverses_event_id = none;
    realized_pnl = negate c.fee;
    cost_basis_delta = zero;
    fee_delta = c.fee;
    occurred_at = c.occurred_at;
    recorded_at = env.now;
  }

  -- The events of a fill: its own, and one for a fee that is charged.
  unfoldable pub fill_events : FillCommand → PositionChange → Order → Fill → List LedgerEvent
  fill_events c change order fill =
      fill_event c change order fill
      ∷ (if is_positive c.fee then fee_event c change order fill ∷ [] else [])

  abbrev hook : String → Statement (Unit {0})
  hook stage = check (env.after_write stage)

  -- The writes of a fill that was not applied before.
  unfoldable pub post_fill : FillCommand → Statement FillResult
  post_fill c = do
    charged ← charge_wallet c
    change ← apply_position c (gross_of c)
    let wallet = record charged.0 { balance_exact = some charged.1 }
    modify (λ db. record db { wallet = some wallet })
    hook "projection"
    order ← upsert_filled_order c (gross_of c)
    hook "order"
    let fill = fill_row c change.position order
    modify (λ db. record db { fills = db.fills ++ fill ∷ [] })
    hook "fill"
    modify (λ db. record db { events = db.events ++ fill_events c change order fill })
    hook "ledger"
    pure (record {
      already_applied = false;
      wallet = wallet;
      position = change.position;
      order = order;
      fill = fill;
    })

  -- The transaction's body, on a prepared command.
  unfoldable pub fill_transaction : FillCommand → Statement FillResult
  fill_transaction c = do
    check env.set_role
    check (env.lock_account c.account_id)
    already ←
        begin_batch c.idempotency_key c.account_id (env.payload_hash (record c { occurred_at = 0 }))
          c.occurred_at
    if already
        then load_fill_result c.idempotency_key
        else do require_ready c.account_id; post_fill c

  unfoldable pub apply_fill : FillCommand → Database → Result FillResult × Database
  apply_fill command db = elim (prepare env.now command) [
    | err e ↦ (err e, db)
    | ok c ↦ transaction (fill_transaction c) db
  ]
