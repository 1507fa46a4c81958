-- ===== src/Ledger/Reversal.antt =====
-- `ReverseCashEvent` of internal/ledger/adjustment.go: an equal and opposite event, once for each
-- original.
use trading_bot.Base.{
  ℕ, if◌then◌else◌, some, Option, any, none, Bool, not, is_empty, ◌||◌, ◌&&◌, ltb, str_eq, ◌==◌,
  ◌++◌, String, false, true, ◌∷◌, [],
}
use Prim.Native.String.{◌++◌ as append}
use trading_bot.Accounting.Decimal.{sub, negate, is_zero, is_negative}
use trading_bot.Ledger.Error.{
  validation, conflict, postgres, record_not_found, err_projection_unavailable,
  err_insufficient_cash,
}
use trading_bot.Ledger.Rows.{Wallet, Position, LedgerEvent, Database}
use trading_bot.Ledger.Store.{
  Result, ok, err, Statement, ◌>>=◌, ◌>>◌, pure, get, or_fail, guard, check, modify, find,
  transaction, require_ready, begin_batch, find_position, save_position,
}
use trading_bot.Ledger.Position.{or_zero, is_exact}
use trading_bot.Ledger.Fill.{Environment}
use trading_bot.Ledger.Adjustment.{load_event}

pub record ReversalCommand : Type 0 where
  pub idempotency_key : String
  pub original_event_id : String
  pub actor : String
  pub reason : String
  pub occurred_at : ℕ

-- The checks before the transaction, which fill in the time.
unfoldable pub prepare_reversal : ℕ → ReversalCommand → Result ReversalCommand
prepare_reversal now c =
    if is_empty c.idempotency_key
      || is_empty c.original_event_id
      || is_empty c.actor
      || is_empty c.reason
    then err (validation "invalid_reversal")
    else if ltb now (if c.occurred_at == 0 then now else c.occurred_at)
    then err (validation "future_occurred_at")
    else ok (record c { occurred_at = if c.occurred_at == 0 then now else c.occurred_at })

abbrev pub is_present : Option String → Bool
is_present none = false
is_present (some s) = true

-- Events of fills are not reversed, nor events that move an asset, save corrections.
unfoldable pub is_reversible : LedgerEvent → Bool
is_reversible e = not (
    is_present e.fill_id
    || (not (is_zero e.asset_delta) && not (str_eq e.event_type "administrative_correction")))

abbrev pub reverses : String → LedgerEvent → Bool
reverses id e = elim e.reverses_event_id [ none ↦ false | some x ↦ str_eq x id ]

-- The wallet without the event's cash.
unfoldable pub refund_wallet : LedgerEvent → Statement Wallet
refund_wallet original = do
  wallet ← or_fail (← get (λ db. db.wallet)) record_not_found
  exact ← or_fail wallet.balance_exact err_projection_unavailable
  guard (not (is_negative (sub exact original.cash_delta))) err_insufficient_cash
  pure (record wallet { balance_exact = some (sub exact original.cash_delta) })

-- The position without the event's quantity and cost basis.
unfoldable pub without_event : ReversalCommand → LedgerEvent → Position → Position
without_event c original p =
    let quantity = sub (or_zero p.amount_exact) original.asset_delta in
    let closing = is_zero quantity in
    record p {
      amount_exact = some quantity;
      cost_basis_exact = some (sub (or_zero p.cost_basis_exact) original.cost_basis_delta);
      status = if closing then "closed" else p.status;
      closed_at = if closing then some c.occurred_at else p.closed_at;
      close_reason = if closing then some "administrative_reversal" else p.close_reason;
    }

unfoldable pub reverse_position : ReversalCommand → LedgerEvent → Statement (Unit {0})
reverse_position c original = if is_zero original.asset_delta then pure tt else (do
  found ← get (λ db. find_position original.account_id original.symbol db.positions)
  p ← or_fail found record_not_found
  guard (is_exact p) err_projection_unavailable
  guard
      (not (is_negative (sub (or_zero p.amount_exact) original.asset_delta))
        && not (is_negative (sub (or_zero p.cost_basis_exact) original.cost_basis_delta)))
      (conflict "reversal_projection_conflict")
  q ← save_position (without_event c original p)
  pure tt)

module _ (env : Environment) where
  unfoldable pub reversal_event : ReversalCommand → LedgerEvent → LedgerEvent
  reversal_event c original = record {
    id = env.stable_id "event-reversal" c.idempotency_key;
    ledger_batch_id = c.idempotency_key;
    sequence = 1;
    idempotency_key = append c.idempotency_key ":reversal";
    event_type = "reversal";
    account_id = original.account_id;
    venue_id = original.venue_id;
    currency = original.currency;
    symbol = original.symbol;
    cash_delta = negate original.cash_delta;
    asset_delta = negate original.asset_delta;
    order_id = none;
    fill_id = none;
    position_id = original.position_id;
    execution_mode = "administrative";
    strategy_version = "";
    policy_version = "";
    actor = c.actor;
    reason = c.reason;
    reverses_event_id = some original.id;
    realized_pnl = negate original.realized_pnl;
    cost_basis_delta = negate original.cost_basis_delta;
    fee_delta = negate original.fee_delta;
    occurred_at = c.occurred_at;
    recorded_at = env.now;
  }

  -- `tx.Create(&reversal)`, under the unique index of `ReversesEventID`.
  unfoldable pub create_reversal : LedgerEvent → LedgerEvent → Statement LedgerEvent
  create_reversal original event = do
    taken ← get (λ db. any (reverses original.id) db.events)
    guard (not taken) (postgres "23505" "idx_ledger_events_reverses_event_id")
    modify (λ db. record db { events = db.events ++ event ∷ [] })
    pure event

  unfoldable pub post_reversal : ReversalCommand → LedgerEvent → Statement LedgerEvent
  post_reversal c original = do
    wallet ← refund_wallet original
    modify (λ db. record db { wallet = some wallet })
    reverse_position c original
    create_reversal original (reversal_event c original)

module _ (env : Environment) (payload_hash : ReversalCommand → String) where
  unfoldable pub reversal_transaction : ReversalCommand → Statement LedgerEvent
  reversal_transaction c = do
    check env.set_role
    found ← get (λ db. find (λ e. str_eq e.id c.original_event_id) db.events)
    original ← or_fail found record_not_found
    guard (is_reversible original) (validation "unsupported_reversal")
    check (env.lock_account original.account_id)
    already ←
        begin_batch c.idempotency_key original.account_id
          (payload_hash (record c { occurred_at = 0 })) c.occurred_at
    if already
        then load_event c.idempotency_key
        else do require_ready original.account_id; post_reversal env c original

  unfoldable pub reverse_cash_event : ReversalCommand → Database → Result LedgerEvent × Database
  reverse_cash_event command db = elim (prepare_reversal env.now command) [
    | err e ↦ (err e, db)
    | ok c ↦ transaction (reversal_transaction c) db
  ]
