-- ===== src/Ledger/Rows.antt =====
-- The rows of the ledger's tables (internal/database/models.go). Times are numbers, 0 the zero
-- time. The float64 columns are copies of the exact ones and are left out, with the columns that
-- only carry a command's description of itself.
use trading_bot.Base.{ℕ, String, Bool, Option, List}
use trading_bot.Accounting.Decimal.{Decimal}

pub record Wallet : Type 0 where
  pub balance_exact : Option Decimal
  pub currency : String
  pub account_id : String

pub record Position : Type 0 where
  pub id : ℕ
  pub symbol : String
  pub account_id : String
  pub amount_exact : Option Decimal
  pub cost_basis_exact : Option Decimal
  pub realized_pnl_exact : Option Decimal
  pub fees_exact : Option Decimal
  pub execution_mode : String
  pub exit_pending : Bool
  pub last_mark_at : Option ℕ
  pub strategy_version : String
  pub policy_version : String
  pub status : String
  pub opened_at : ℕ
  pub closed_at : Option ℕ
  pub close_reason : Option String

pub record Order : Type 0 where
  pub id : ℕ
  pub order_type : String
  pub account_id : String
  pub symbol : String
  pub amount_crypto_exact : Option Decimal
  pub requested_quantity_exact : Option Decimal
  pub executed_quantity_exact : Option Decimal
  pub remaining_quantity_exact : Option Decimal
  pub amount_usdt_exact : Option Decimal
  pub fee_exact : Option Decimal
  pub ledger_batch_id : Option String
  pub exchange_order_id : Option String
  pub client_order_id : Option String
  pub status : String
  pub execution_mode : String
  pub policy_version : String
  pub trigger_reason : Option String
  pub submitted_at : Option ℕ
  pub filled_at : Option ℕ
  pub executed_at : ℕ

pub record Fill : Type 0 where
  pub id : String
  pub ledger_batch_id : String
  pub account_id : String
  pub order_id : ℕ
  pub venue_id : String
  pub provider_fill_id : Option String
  pub position_id : ℕ
  pub symbol : String
  pub side : String
  pub quantity : Decimal
  pub requested_price : Decimal
  pub fill_price : Decimal
  pub gross_amount : Decimal
  pub fee_amount : Decimal
  pub fee_type : String
  pub fee_currency : String
  pub execution_mode : String
  pub strategy_version : String
  pub policy_version : String
  pub cost_model_version : String
  pub occurred_at : ℕ
  pub created_at : ℕ

pub record LedgerEvent : Type 0 where
  pub id : String
  pub ledger_batch_id : String
  pub sequence : ℕ
  pub idempotency_key : String
  pub event_type : String
  pub account_id : String
  pub venue_id : String
  pub currency : String
  pub symbol : String
  pub cash_delta : Decimal
  pub asset_delta : Decimal
  pub order_id : Option ℕ
  pub fill_id : Option String
  pub position_id : Option ℕ
  pub execution_mode : String
  pub strategy_version : String
  pub policy_version : String
  pub actor : String
  pub reason : String
  pub reverses_event_id : Option String
  pub realized_pnl : Decimal
  pub cost_basis_delta : Decimal
  pub fee_delta : Decimal
  pub occurred_at : ℕ
  pub recorded_at : ℕ

pub record LedgerBatch : Type 0 where
  pub id : String
  pub account_id : String
  pub payload_hash : String
  pub created_at : ℕ

pub record LedgerMigrationState : Type 0 where
  pub account_id : String
  pub status : String

-- The tables. There is one wallet row at most: `First` without a condition reads it.
pub record Database : Type 0 where
  pub wallet : Option Wallet
  pub positions : List Position
  pub orders : List Order
  pub fills : List Fill
  pub events : List LedgerEvent
  pub batches : List LedgerBatch
  pub migrations : List LedgerMigrationState
  pub next_position_id : ℕ
  pub next_order_id : ℕ
