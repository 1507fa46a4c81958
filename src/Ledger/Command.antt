-- ===== src/Ledger/Command.antt =====
-- `FillCommand` of internal/ledger/service.go and the checks before its transaction. The float64
-- price levels and the descriptive fields that the ledger only copies are left out.
use trading_bot.Base.{
  ℕ, not, ◌&&◌, ◌||◌, Option, none, some, String, if◌then◌else◌, ltb, ◌==◌, str_eq, is_empty,
  is_blank,
}
use trading_bot.Accounting.Decimal.{Decimal, is_negative, is_positive}
use trading_bot.Ledger.Error.{Failure, validation, default_account_id, require_primary_account}
use trading_bot.Ledger.Store.{Result, ok, err}

pub record FillCommand : Type 0 where
  pub idempotency_key : String
  pub account_id : String
  pub symbol : String
  pub side : String
  pub quantity : Decimal
  pub requested_price : Decimal
  pub fill_price : Decimal
  pub fee : Decimal
  pub fee_type : String
  pub currency : String
  pub execution_mode : String
  pub provider_fill_id : String
  pub provider_order_id : String
  pub venue_id : String
  pub fee_currency : String
  pub order_status : String
  pub existing_order_id : ℕ
  pub client_order_id : String
  pub occurred_at : ℕ
  pub actor : String
  pub reason : String
  pub strategy_version : String
  pub policy_version : String
  pub cost_model_version : String
  pub model_version : String

-- `validateFill`, as the error that it returns.
unfoldable pub validate_fill : FillCommand → Option Failure
validate_fill c =
    if is_blank c.idempotency_key || is_blank c.symbol
    then some (validation "invalid_fill")
    else if not (str_eq c.side "buy") && not (str_eq c.side "sell")
    then some (validation "invalid_side")
    else if not (is_positive c.quantity)
        || not (is_positive c.requested_price)
        || not (is_positive c.fill_price)
        || is_negative c.fee
    then some (validation "invalid_amount")
    else if is_empty c.currency || is_empty c.execution_mode || is_empty c.fee_type
    then some (validation "invalid_dimensions")
    else if is_empty c.cost_model_version
    then some (validation "invalid_cost_model_version")
    else none

-- `nonempty`
unfoldable pub nonempty : String → String → String
nonempty value fallback = if is_blank value then fallback else value

-- `stringPtrOrNil`
unfoldable pub string_or_nil : String → Option String
string_or_nil value = if is_blank value then none else some value

abbrev pub default_to : String → String → String
default_to fallback value = if is_empty value then fallback else value

unfoldable pub with_cost_model : FillCommand → FillCommand
with_cost_model c = record c {
  cost_model_version = default_to "legacy-cost-v1" c.cost_model_version;
}

unfoldable pub with_defaults : FillCommand → FillCommand
with_defaults c = record c {
  account_id = default_to default_account_id c.account_id;
  venue_id = default_to "internal" c.venue_id;
  fee_currency = default_to c.currency c.fee_currency;
}

unfoldable pub with_time : ℕ → FillCommand → FillCommand
with_time now c = record c { occurred_at = if c.occurred_at == 0 then now else c.occurred_at }

-- The rest of the checks of `ApplyFill`, on a command with its defaults.
unfoldable pub check_command : ℕ → FillCommand → Result FillCommand
unfolding with_time
check_command now c =
    if not (str_eq c.fee_currency c.currency)
    then err (validation "unsupported_fee_asset")
    else if str_eq c.execution_mode "exchange"
        && (str_eq c.venue_id "internal"
            || is_empty c.provider_fill_id
            || is_empty c.provider_order_id)
    then err (validation "provider_identity_required")
    else if ltb now (with_time now c).occurred_at
    then err (validation "future_occurred_at")
    else ok (with_time now c)

-- What `ApplyFill` does before it opens the transaction.
unfoldable pub prepare : ℕ → FillCommand → Result FillCommand
prepare now c = elim (require_primary_account c.account_id) [
  | some e ↦ err e
  | none ↦ elim (validate_fill (with_cost_model c)) [
    | some e ↦ err e
    | none ↦ check_command now (with_defaults (with_cost_model c))
  ]
]
