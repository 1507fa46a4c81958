-- ===== src/Ledger/Correction.antt =====
-- `ApplyAssetCorrection` of internal/ledger/correction.go: the exact exposure of a legacy position.
-- The float64 amount of the position, read through accounting.FromFloat, is a parameter.
use trading_bot.Ledger.Command.{default_to}
use trading_bot.Base.{
  ℕ, Option, none, some, if◌then◌else◌, is_empty, is_nil, ◌||◌, not, ltb, ◌==◌, String, List, Bool,
  str_eq, false, eqb_ℤ, ◌&&◌, pos, ◌++◌, ◌∷◌, [],
}
use Prim.Native.String.{◌++◌ as append}
use trading_bot.Accounting.Decimal.{Decimal, zero, is_positive, is_negative, cmp}
use trading_bot.Ledger.Error.{
  Failure, validation, conflict, default_account_id, require_primary_account, record_not_found,
  err_unreconciled_legacy_state,
}
use trading_bot.Ledger.Rows.{Position, LedgerEvent, LedgerMigrationState, Database}
use trading_bot.Ledger.Store.{
  Result, err, Statement, ◌>>=◌, ◌>>◌, pure, get, or_fail, guard, check, modify, find, transaction,
  begin_batch, save_position,
}
use trading_bot.Ledger.Position.{is_set, is_open, is_exact}
use trading_bot.Ledger.Fill.{Environment}
use trading_bot.Ledger.Adjustment.{load_event}

pub record AssetCorrectionCommand : Type 0 where
  pub idempotency_key : String
  pub account_id : String
  pub symbol : String
  pub quantity : Decimal
  pub cost_basis : Decimal
  pub currency : String
  pub actor : String
  pub reason : String
  pub occurred_at : ℕ

unfoldable pub check_correction : ℕ → AssetCorrectionCommand → Option Failure
check_correction now c =
    if is_empty c.idempotency_key
      || is_empty c.symbol
      || not (is_positive c.quantity)
      || is_negative c.cost_basis
      || is_empty c.actor
      || is_empty c.reason
    then some (validation "invalid_asset_correction")
    else if ltb now (if c.occurred_at == 0 then now else c.occurred_at)
    then some (validation "future_occurred_at")
    else none

unfoldable pub correction_defaults : ℕ → AssetCorrectionCommand → AssetCorrectionCommand
correction_defaults now c = record c {
  account_id = default_to default_account_id c.account_id;
  occurred_at = if c.occurred_at == 0 then now else c.occurred_at;
}

-- The assignments on the position.
unfoldable pub corrected : AssetCorrectionCommand → Position → Position
corrected c p = record p {
  amount_exact = some c.quantity;
  cost_basis_exact = some c.cost_basis;
  realized_pnl_exact = some zero;
  fees_exact = some zero;
}

-- The open positions of the account that have no exact columns yet.
abbrev pub unresolved_positions : String → List Position → List Position
unresolved_positions account [] = []
unresolved_positions account (p ∷ ps) =
    let rest = unresolved_positions account ps in
    if str_eq p.account_id account && is_open p && not (is_exact p) then p ∷ rest else rest

abbrev pub set_status : String → String → List LedgerMigrationState → List LedgerMigrationState
set_status account status [] = []
set_status account status (s ∷ ss) =
    (if str_eq s.account_id account then record s { status = status } else s)
    ∷ set_status account status ss

module _ (env : Environment) where
  unfoldable pub correction_event : AssetCorrectionCommand → Position → LedgerEvent
  correction_event c p = record {
    id = env.stable_id "event-asset-correction" c.idempotency_key;
    ledger_batch_id = c.idempotency_key;
    sequence = 1;
    idempotency_key = append c.idempotency_key ":asset";
    event_type = "administrative_correction";
    account_id = c.account_id;
    venue_id = "internal";
    currency = c.currency;
    symbol = c.symbol;
    cash_delta = zero;
    asset_delta = c.quantity;
    order_id = none;
    fill_id = none;
    position_id = some p.id;
    execution_mode = "administrative";
    strategy_version = "";
    policy_version = "";
    actor = c.actor;
    reason = c.reason;
    reverses_event_id = none;
    realized_pnl = zero;
    cost_basis_delta = c.cost_basis;
    fee_delta = zero;
    occurred_at = c.occurred_at;
    recorded_at = env.now;
  }

  -- The account is ready once no open position is left to correct.
  unfoldable pub settle_migration : AssetCorrectionCommand → Database → Database
  settle_migration c db =
      if is_nil (unresolved_positions c.account_id db.positions)
      then record db { migrations = set_status c.account_id "ready" db.migrations }
      else db

module _ (env : Environment) (payload_hash : AssetCorrectionCommand → String)
    (legacy_amount : Position → Option Decimal) where
  -- The observed legacy amount is the one that the command states.
  unfoldable pub is_observed : AssetCorrectionCommand → Position → Bool
  is_observed c p = elim (legacy_amount p) [
    | none ↦ false
    | some amount ↦ eqb_ℤ (cmp amount c.quantity) (pos 0)
  ]

  unfoldable pub post_correction : AssetCorrectionCommand → Statement LedgerEvent
  post_correction c = do
    state ←
        or_fail (← get (λ db. find (λ s. str_eq s.account_id c.account_id) db.migrations))
          record_not_found
    guard (str_eq state.status "pending_resolution" || str_eq state.status "ready")
        err_unreconciled_legacy_state
    wallet ← or_fail (← get (λ db. db.wallet)) record_not_found
    guard (str_eq wallet.currency c.currency) (validation "unsupported_currency")
    found ← get (λ db.
        find (λ p. str_eq p.account_id c.account_id && str_eq p.symbol c.symbol && is_open p)
          db.positions)
    p ← or_fail found record_not_found
    guard (not (is_set p.amount_exact) && not (is_set p.cost_basis_exact))
        (conflict "already_reconciled")
    guard (is_observed c p) (validation "legacy_quantity_mismatch")
    q ← save_position (corrected c p)
    modify (λ db. record db { events = db.events ++ correction_event env c p ∷ [] })
    modify (settle_migration env c)
    pure (correction_event env c p)

  unfoldable pub correction_transaction : AssetCorrectionCommand → Statement LedgerEvent
  correction_transaction c = do
    check env.set_role
    check (env.lock_account c.account_id)
    already ←
        begin_batch c.idempotency_key c.account_id (payload_hash (record c { occurred_at = 0 }))
          c.occurred_at
    if already then load_event c.idempotency_key else post_correction c

  unfoldable pub apply_asset_correction :
      AssetCorrectionCommand → Database → Result LedgerEvent × Database
  apply_asset_correction command db = elim (require_primary_account command.account_id) [
    | some e ↦ (err e, db)
    | none ↦ elim (check_correction env.now command) [
      | some e ↦ (err e, db)
      | none ↦ transaction (correction_transaction (correction_defaults env.now command)) db
    ]
  ]
