-- ===== src/Ledger/OrderLaws.antt =====
-- What `upsertFilledOrder` (internal/ledger/service.go) adds to an order, within its request.
use trading_bot.Base.Ensures.{Ensures}
use trading_bot.Ledger.Command.{FillCommand}
use trading_bot.Ledger.Order.{has_totals, same_dimensions, new_order}
use trading_bot.Ledger.Rows.{Order, Database}
use trading_bot.Accounting.Decimal.{Decimal, sub, is_negative, integer}
use trading_bot.Ledger.Store.{find}
use trading_bot.Ledger.Position.{or_zero}
use trading_bot.Base.{
  ◌≡◌, ◌⊎◌, pos, ℤ, ◌+ℤ◌, true, false, Option, none, some, if◌then◌else◌, ◌==◌, ltb,
}

-- What is left is what was requested less what was executed, and not negative; an order without a
-- requested quantity has no such bound.
abbrev pub Within : Option Decimal → Option Decimal → Option Decimal → Type 0
Within none executed remaining = Unit
Within (some quantity) executed remaining =
    (remaining ≡ some (sub quantity (or_zero executed)))
    × (is_negative (sub quantity (or_zero executed)) ≡ false)

abbrev pub IsWithinRequest : Order → Type 0
IsWithinRequest o =
    Within o.requested_quantity_exact o.executed_quantity_exact o.remaining_quantity_exact

-- What an exact column of an order holds before a fill: nothing until all three are there.
abbrev pub column_before : Order → Option Decimal → ℤ
column_before o column = if has_totals o then integer (or_zero column) else pos 0

-- The order the fill is booked on: the stored one it names, or a new one.
abbrev pub IsTarget : FillCommand → Database → Order → Type 0
IsTarget c db o =
    ((ltb 0 c.existing_order_id ≡ true)
      × (find (λ (r : Order). r.id == c.existing_order_id) db.orders ≡ some o)
      × (same_dimensions c o ≡ true))
    ⊎ ((ltb 0 c.existing_order_id ≡ false) × (o ≡ new_order c))

-- The columns of `o` are those of `p` with the fill added, and a requested quantity stays.
pub record IsAccrued (c : FillCommand) (gross : Decimal) (p o : Order) : Type 0 where
  pub totals : has_totals o ≡ true
  pub executed : o.executed_quantity_exact ≡ o.amount_crypto_exact
  pub quantity :
      integer (or_zero o.amount_crypto_exact)
      ≡ column_before p p.amount_crypto_exact +ℤ integer c.quantity
  pub value :
      integer (or_zero o.amount_usdt_exact) ≡ column_before p p.amount_usdt_exact +ℤ integer gross
  pub fee : integer (or_zero o.fee_exact) ≡ column_before p p.fee_exact +ℤ integer c.fee
  pub request :
      (p.requested_quantity_exact ≡ none)
      ⊎ (o.requested_quantity_exact ≡ p.requested_quantity_exact)

-- What booking a fill makes of the tables' orders.
abbrev pub IsBooked : FillCommand → Decimal → Database → Order → Type 0
IsBooked c gross db o = IsWithinRequest o × ((p : Order) × IsTarget c db p × IsAccrued c gross p o)
