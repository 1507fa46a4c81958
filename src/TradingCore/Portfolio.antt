-- ===== src/TradingCore/Portfolio.antt =====
-- What the risk engine reads: the policy of internal/tradingcore/contracts.go and the portfolio of
-- snapshots.go. An amount that is not valid is the Decimal without a value.
use trading_bot.Base.{
  ℕ, Bool, true, false, not, ◌&&◌, ◌||◌, Option, none, some, List, String, if◌then◌else◌, ℤ, pos,
  neg, ◌+ℤ◌, ◌-ℤ◌, is_empty, ltb_ℤ, leb_ℤ, ◌^◌,
}
use trading_bot.Accounting.Decimal.{Decimal, is_negative}
use trading_bot.TradingCore.Contracts.{Instrument}

pub record ExecutionCostPolicy : Type 0 where
  pub version : String
  pub fee_bps : ℤ
  pub adverse_slippage_bps : ℤ

pub record RiskPolicy : Type 0 where
  pub version : String
  pub max_positions : ℤ
  pub max_gross_exposure : Decimal
  pub max_position_value : Decimal
  pub max_turnover : Decimal
  pub cash_reserve : Decimal
  pub max_concurrent_orders : ℤ
  pub pyramiding_enabled : Bool
  pub max_pyramid_layers : ℤ
  pub lot_size : Decimal
  pub execution_costs : ExecutionCostPolicy

pub data PolicyFault : Type 0 where
  version_required invalid_limits negative_turnover_or_reserve negative_counts : PolicyFault
  cost_version_required invalid_basis_points : PolicyFault

abbrev pub is_valid : Decimal → Bool
is_valid d = elim d.value [ some z ↦ true | none ↦ false ]

-- An int64 sum wraps around.
abbrev pub wrap : ℤ → ℤ
wrap z =
    if leb_ℤ (pos (2 ^ 63)) z
    then z -ℤ pos (2 ^ 64)
    else if ltb_ℤ z (neg (pos (2 ^ 63)))
    then z +ℤ pos (2 ^ 64)
    else z

-- `ExecutionCostPolicy.Validate`
unfoldable pub validate_costs : ExecutionCostPolicy → Option PolicyFault
validate_costs c =
    if is_empty c.version
    then some cost_version_required
    else if ltb_ℤ c.fee_bps (pos 0)
        || ltb_ℤ c.adverse_slippage_bps (pos 0)
        || leb_ℤ (pos 10000) (wrap (c.fee_bps +ℤ c.adverse_slippage_bps))
    then some invalid_basis_points
    else none

-- `RiskPolicy.Validate`
unfoldable pub validate_policy : RiskPolicy → Option PolicyFault
unfolding validate_costs
validate_policy p =
    if is_empty p.version || ltb_ℤ p.max_positions (pos 0)
    then some version_required
    else if not (is_valid p.max_gross_exposure)
        || not (is_valid p.max_position_value)
        || is_negative p.max_gross_exposure
        || is_negative p.max_position_value
    then some invalid_limits
    else if (is_valid p.max_turnover && is_negative p.max_turnover)
        || (is_valid p.cash_reserve && is_negative p.cash_reserve)
    then some negative_turnover_or_reserve
    else if ltb_ℤ p.max_concurrent_orders (pos 0) || ltb_ℤ p.max_pyramid_layers (pos 0)
    then some negative_counts
    else validate_costs p.execution_costs

pub record Position : Type 0 where
  pub id : String
  pub instrument : Instrument
  pub quantity : Decimal
  pub mark_price : Decimal
  pub pyramid_layers : ℕ

pub record PendingOrder : Type 0 where
  pub id : String
  pub instrument : Instrument

pub record RiskState : Type 0 where
  pub known : Bool
  pub gross_exposure : Decimal
  pub turnover : Decimal

pub record PortfolioSnapshot : Type 0 where
  pub as_of : ℕ
  pub cash : List (String × Decimal)
  pub positions : List Position
  pub pending : List PendingOrder
  pub risk : RiskState
