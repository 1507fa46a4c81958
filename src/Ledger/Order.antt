-- ===== src/Ledger/Order.antt =====
-- `upsertFilledOrder` of internal/ledger/service.go.
use trading_bot.Base.{
  Bool, true, false, not, ◌&&◌, Option, none, some, if◌then◌else◌, ltb, ◌==◌, str_eq, is_empty,
}
use trading_bot.Accounting.Decimal.{Decimal, add, sub, is_negative}
use trading_bot.Ledger.Error.{record_not_found, conflict}
use trading_bot.Ledger.Rows.{Order}
use trading_bot.Ledger.Store.{
  Result, ok, err, Statement, ◌>>=◌, ◌>>◌, lift, get, or_fail, guard, find, create_order,
  save_order,
}
use trading_bot.Ledger.Command.{FillCommand, string_or_nil, default_to}
use trading_bot.Ledger.Position.{or_zero, is_set}

unfoldable pub new_order : FillCommand → Order
unfolding string_or_nil
new_order c = record {
  id = 0;
  order_type = c.side;
  account_id = c.account_id;
  symbol = c.symbol;
  amount_crypto_exact = none;
  requested_quantity_exact = none;
  executed_quantity_exact = none;
  remaining_quantity_exact = none;
  amount_usdt_exact = none;
  fee_exact = none;
  ledger_batch_id = some c.idempotency_key;
  exchange_order_id = none;
  client_order_id = string_or_nil c.client_order_id;
  status = "";
  execution_mode = "";
  policy_version = "";
  trigger_reason = none;
  submitted_at = none;
  filled_at = none;
  executed_at = c.occurred_at;
}

-- The three exact columns are there.
abbrev pub has_totals : Order → Bool
has_totals o = is_set o.amount_crypto_exact && is_set o.amount_usdt_exact && is_set o.fee_exact

-- The order's exact column plus the fill's value, or the value alone on the first fill.
abbrev pub running : Bool → Option Decimal → Decimal → Decimal
running true total value = add (or_zero total) value
running false total value = value

-- The requested quantity, which a first complete fill sets.
abbrev pub requested : FillCommand → Order → Decimal → Option Decimal
requested c o total =
    if not (is_set o.requested_quantity_exact) && str_eq c.order_status "filled"
    then some total
    else o.requested_quantity_exact

-- The assignments on the order, with the quantity that is left of the requested one.
unfoldable pub fill_order : FillCommand → Decimal → Option Decimal → Order → Order
unfolding string_or_nil
fill_order c gross remaining o =
    let total = running (has_totals o) o.amount_crypto_exact c.quantity in
    let status = default_to "filled" c.order_status in
    record o {
      order_type = c.side;
      symbol = c.symbol;
      status = status;
      execution_mode = c.execution_mode;
      amount_crypto_exact = some total;
      amount_usdt_exact = some (running (has_totals o) o.amount_usdt_exact gross);
      fee_exact = some (running (has_totals o) o.fee_exact c.fee);
      executed_quantity_exact = some total;
      requested_quantity_exact = requested c o total;
      remaining_quantity_exact = remaining;
      policy_version = c.policy_version;
      trigger_reason = string_or_nil c.reason;
      submitted_at = some c.occurred_at;
      filled_at = if str_eq status "filled" then some c.occurred_at else none;
      exchange_order_id =
          if is_empty c.provider_order_id then o.exchange_order_id else some c.provider_order_id;
    }

-- What is left of the requested quantity; an order without one keeps what it had.
unfoldable pub remaining_of : FillCommand → Order → Result (Option Decimal)
remaining_of c o =
    let total = running (has_totals o) o.amount_crypto_exact c.quantity in
    elim (requested c o total) [
      | none ↦ ok o.remaining_quantity_exact
      | some quantity ↦
          if is_negative (sub quantity total)
          then err (conflict "order_overfill")
          else ok (some (sub quantity total))
    ]

unfoldable pub same_dimensions : FillCommand → Order → Bool
same_dimensions c o =
    str_eq o.account_id c.account_id && str_eq o.symbol c.symbol && str_eq o.order_type c.side

-- An existing order is locked, matched against the fill and saved; a new one is created.
unfoldable pub upsert_filled_order : FillCommand → Decimal → Statement Order
upsert_filled_order c gross =
    if ltb 0 c.existing_order_id
    then (do
      found ← get (λ db. find (λ o. o.id == c.existing_order_id) db.orders)
      o ← or_fail found record_not_found
      guard (same_dimensions c o) (conflict "order_fill_mismatch")
      remaining ← lift (remaining_of c o)
      save_order (fill_order c gross remaining o))
    else (do
      remaining ← lift (remaining_of c (new_order c))
      create_order (fill_order c gross remaining (new_order c)))
