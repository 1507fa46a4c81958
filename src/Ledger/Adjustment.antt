-- ===== src/Ledger/Adjustment.antt =====
-- `ApplyAdjustment` of internal/ledger/adjustment.go: deposits, withdrawals, interest and
-- corrections of cash.
use trading_bot.Ledger.Command.{default_to}
use trading_bot.Base.{
  ◌∷◌, ℕ, if◌then◌else◌, some, Option, Bool, str_eq, ltb, is_empty, equal_fold, not, ◌||◌, is_blank,
  ◌&&◌, none, String, true, ◌==◌, ◌++◌, ◌∷◌, [], false,
}
use Prim.Native.String.{◌++◌ as append}
use trading_bot.Accounting.Decimal.{Decimal, add, negate, zero, is_zero, is_negative}
use trading_bot.Ledger.Error.{
  Failure, validation, require_primary_account, record_not_found, err_projection_unavailable,
  err_insufficient_cash, default_account_id,
}
use trading_bot.Ledger.Rows.{Wallet, LedgerEvent, Database}
use trading_bot.Ledger.Store.{
  Result, ok, err, Statement, ◌>>=◌, ◌>>◌, pure, get, or_fail, guard, check, modify, find,
  transaction, require_ready, begin_batch,
}
use trading_bot.Ledger.Fill.{Environment}

pub record AdjustmentCommand : Type 0 where
  pub event_id : String
  pub idempotency_key : String
  pub account_id : String
  pub kind : String
  pub amount : Decimal
  pub currency : String
  pub actor : String
  pub reason : String
  pub occurred_at : ℕ

pub record AdjustmentResult : Type 0 where
  pub already_applied : Bool
  pub wallet : Wallet
  pub event : LedgerEvent

-- The four event types that an adjustment may have.
unfoldable pub is_adjustment : String → Bool
is_adjustment kind =
    str_eq kind "capital_deposit"
    || str_eq kind "capital_withdrawal"
    || str_eq kind "funding_interest"
    || str_eq kind "administrative_correction"

abbrev pub is_capital : String → Bool
is_capital kind = str_eq kind "capital_deposit" || str_eq kind "capital_withdrawal"

unfoldable pub adjustment_defaults : ℕ → AdjustmentCommand → AdjustmentCommand
adjustment_defaults now c = record c {
  account_id = default_to default_account_id c.account_id;
  occurred_at = if c.occurred_at == 0 then now else c.occurred_at;
}

-- The checks of `ApplyAdjustment` on a command with its defaults, in their order.
unfoldable pub check_adjustment : ℕ → AdjustmentCommand → Option Failure
check_adjustment now c =
    if ltb now c.occurred_at
    then some (validation "future_occurred_at")
    else if is_empty c.idempotency_key
        || is_empty c.currency
        || is_empty c.actor
        || is_blank c.reason
        || is_zero c.amount
    then some (validation "invalid_adjustment")
    else if not (is_adjustment c.kind)
    then some (validation "unsupported_adjustment_type")
    else if is_capital c.kind && is_negative c.amount
    then some (validation "invalid_adjustment_amount")
    else none

unfoldable pub prepare_adjustment : ℕ → AdjustmentCommand → Result AdjustmentCommand
prepare_adjustment now command = elim (require_primary_account command.account_id) [
  | some e ↦ err e
  | none ↦ elim (check_adjustment now (adjustment_defaults now command)) [
    | some e ↦ err e
    | none ↦ ok (adjustment_defaults now command)
  ]
]

-- The signed posting: a withdrawal's amount is stated positive.
unfoldable pub adjustment_delta : AdjustmentCommand → Decimal
adjustment_delta c = if str_eq c.kind "capital_withdrawal" then negate c.amount else c.amount

-- The wallet with the adjusted balance.
unfoldable pub adjust_wallet : AdjustmentCommand → Statement Wallet
adjust_wallet c = do
  wallet ← or_fail (← get (λ db. db.wallet)) record_not_found
  exact ← or_fail wallet.balance_exact err_projection_unavailable
  guard (equal_fold wallet.currency c.currency) (validation "unsupported_currency")
  guard (not (is_negative (add exact (adjustment_delta c)))) err_insufficient_cash
  pure (record wallet { balance_exact = some (add exact (adjustment_delta c)) })

-- The event of a batch that was applied before.
unfoldable pub load_event : String → Statement LedgerEvent
load_event batch = get (λ db. find (λ e. str_eq e.ledger_batch_id batch) db.events) >>= λ found.
    or_fail found record_not_found

unfoldable pub load_adjustment : AdjustmentCommand → Statement AdjustmentResult
load_adjustment c = do
  event ← load_event c.idempotency_key
  wallet ← or_fail (← get (λ db. db.wallet)) record_not_found
  pure (record { already_applied = true; wallet = wallet; event = event })

module _ (env : Environment) where
  unfoldable pub adjustment_event : AdjustmentCommand → LedgerEvent
  adjustment_event c = record {
    id =
        if is_empty c.event_id
        then env.stable_id "event-adjustment" c.idempotency_key
        else c.event_id;
    ledger_batch_id = c.idempotency_key;
    sequence = 1;
    idempotency_key = append c.idempotency_key ":adjustment";
    event_type = c.kind;
    account_id = c.account_id;
    venue_id = "internal";
    currency = c.currency;
    symbol = "";
    cash_delta = adjustment_delta c;
    asset_delta = zero;
    order_id = none;
    fill_id = none;
    position_id = none;
    execution_mode = "administrative";
    strategy_version = "";
    policy_version = "";
    actor = c.actor;
    reason = c.reason;
    reverses_event_id = none;
    realized_pnl = zero;
    cost_basis_delta = record { value = none };
    fee_delta = record { value = none };
    occurred_at = c.occurred_at;
    recorded_at = env.now;
  }

  unfoldable pub post_adjustment : AdjustmentCommand → Statement AdjustmentResult
  post_adjustment c = do
    wallet ← adjust_wallet c
    modify (λ db. record db { wallet = some wallet; events = db.events ++ adjustment_event c ∷ [] })
    check (env.after_write "ledger")
    pure (record { already_applied = false; wallet = wallet; event = adjustment_event c })

module _ (env : Environment) (payload_hash : AdjustmentCommand → String) where
  unfoldable pub adjustment_transaction : AdjustmentCommand → Statement AdjustmentResult
  adjustment_transaction c = do
    check env.set_role
    check (env.lock_account c.account_id)
    already ←
        begin_batch c.idempotency_key c.account_id (payload_hash (record c { occurred_at = 0 }))
          c.occurred_at
    if already then load_adjustment c else do require_ready c.account_id; post_adjustment env c

  unfoldable pub apply_adjustment :
      AdjustmentCommand → Database → Result AdjustmentResult × Database
  apply_adjustment command db = elim (prepare_adjustment env.now command) [
    | err e ↦ (err e, db)
    | ok c ↦ transaction (adjustment_transaction c) db
  ]
