-- ===== src/TradingCore/Contracts.antt =====
-- The orders and the outcomes of internal/tradingcore/contracts.go, as the orchestrator and the
-- ledger read them. An exact amount is the Decimal of its value, a time its microseconds, and a map
-- of texts the list of its entries.
use trading_bot.Accounting.Decimal.{Decimal}
use trading_bot.TradingCore.Rollout.{ExecutionMode}
use trading_bot.Base.{ℕ, ℤ, Bool, true, false, Option, List, String}

pub data OrderSide : Type 0 where
  buy sell : OrderSide

abbrev pub side_name : OrderSide → String
side_name buy = "buy"
side_name sell = "sell"

abbrev pub eq_side : OrderSide → OrderSide → Bool
eq_side buy buy = true
eq_side sell sell = true
eq_side _ _ = false

pub data OrderType : Type 0 where
  market_order limit_order other_type : OrderType

-- The string of a mode; an unlisted one has none here, and no reader takes it.
abbrev pub mode_name : ExecutionMode → String
mode_name ExecutionMode.research = "research"
mode_name ExecutionMode.shadow = "shadow"
mode_name ExecutionMode.backtest = "backtest"
mode_name ExecutionMode.live_dry_run = "live_dry_run"
mode_name ExecutionMode.paper = "paper"
mode_name ExecutionMode.limited_live = "limited_live"
mode_name ExecutionMode.full_live = "full_live"
mode_name ExecutionMode.other_mode = ""

pub record Instrument : Type 0 where
  pub id : String
  pub venue : String
  pub base_asset : String
  pub quote_asset : String

pub record VersionContext : Type 0 where
  pub strategy : String
  pub policy : String
  pub model : String

pub record OrderIntent : Type 0 where
  pub id : String
  pub idempotency_key : String
  pub account_id : String
  pub instrument : Instrument
  pub side : OrderSide
  pub order_type : OrderType
  pub quantity : Decimal
  pub limit_price : Option Decimal
  pub reference_price : Option Decimal
  pub signal_at : ℕ
  pub decision_at : ℕ
  pub created_at : ℕ
  pub execution_mode : ExecutionMode
  pub quantity_semantics : String
  pub priority : ℤ
  pub reason : String
  pub versions : VersionContext
  pub metadata : List (String × String)

pub record Fill : Type 0 where
  pub id : String
  pub provider_fill_id : String
  pub instrument_id : String
  pub side : OrderSide
  pub quantity : Decimal
  pub price : Decimal
  pub fee : Decimal
  pub fee_asset : String
  pub filled_at : ℕ
  pub source : String
  pub cost_model_version : String

pub data BrokerOrderStatus : Type 0 where
  accepted partially_filled filled : BrokerOrderStatus

abbrev pub status_name : BrokerOrderStatus → String
status_name accepted = "accepted"
status_name partially_filled = "partially_filled"
status_name filled = "filled"

pub record AcceptedOrder : Type 0 where
  pub order_id : String
  pub provider_order_id : String
  pub status : BrokerOrderStatus
  pub accepted_at : ℕ
  pub remaining : Option Decimal
  pub fills : List Fill

pub record OrderRejection : Type 0 where
  pub order_id : String
  pub code : String

pub data OutcomeCompleteness : Type 0 where
  complete indeterminate : OutcomeCompleteness

pub record BrokerBatchOutcome : Type 0 where
  pub completeness : OutcomeCompleteness
  pub accepted : List AcceptedOrder
  pub rejected : List OrderRejection
