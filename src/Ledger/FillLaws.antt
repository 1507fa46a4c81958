-- ===== src/Ledger/FillLaws.antt =====
-- `ApplyFill` keeps the books (internal/ledger/service.go).
use trading_bot.Ledger.Order.{upsert_filled_order, same_dimensions, remaining_of, new_order}
use mathlib.Core.Path.{subst}
use trading_bot.Base.{
  +ℤ_zero, zero-+ℤ, +ℤ-neg, +ℤ-sub, ◌≡◌, ◌≢◌, refl, sym, ap, ◌∙◌, true, false, not, Option, some,
  List, ◌++◌, String, if◌then◌else◌, str_eq, eq_iff, eq_refl, equal_fold, arith, ℤ, pos, neg, ◌+ℤ◌,
  ◌-ℤ◌, int_laws, Bool-cases, inl, inr, ltb, ◌==◌,
}
use trading_bot.Accounting.Decimal.{Decimal, integer, add, sub, is_negative}
use trading_bot.Ledger.Error.{
  validation, record_not_found, err_projection_unavailable, err_insufficient_cash, conflict,
}
use trading_bot.Ledger.Rows.{Wallet, Position, Order, Fill, LedgerEvent, Database}
use trading_bot.Ledger.Store.{create_order, save_order, find}
use trading_bot.Base.Ensures.{
  Ensures, Ensures-or_fail, Ensures-guard, Ensures-bind, Ensures-check, Ensures-lift,
}
use trading_bot.Ledger.Command.{FillCommand}
use trading_bot.Ledger.Position.{PositionChange, or_zero, is_set, apply_position}
use trading_bot.Ledger.Fill.{
  Environment, cash_delta_of, asset_delta_of, fill_events, charge_wallet, post_fill, FillResult,
  gross_of, fill_row,
}
use trading_bot.Ledger.Books.{
  posted, in_currency, in_symbol, held, holder, HoldsCash, Books, posted-append, IsSettled,
}
use trading_bot.Ledger.FillPostings.{
  IsPrepared, cash-events, amount-events, basis-events, fee-events, profit-events,
}
use trading_bot.Ledger.PositionLaws.{Moved, apply_position-Moved}

-- What the wallet's part of the transaction establishes; it changes no table.
pub record Charged (c : FillCommand) (db : Database) (r : Wallet × Decimal) (db' : Database)
    : Type 0 where
  pub same : db' ≡ db
  pub wallet : db'.wallet ≡ some r.0
  pub exact : is_set r.0.balance_exact ≡ true
  pub balance :
      integer r.1
      ≡ integer (or_zero r.0.balance_exact) +ℤ integer (cash_delta_of c) -ℤ integer c.fee
  pub solvent : is_negative r.1 ≡ false
  pub currency : equal_fold r.0.currency c.currency ≡ true

pub charge_wallet-Charged :
    (c : FillCommand) (db : Database) → Ensures (Charged c db) (charge_wallet c db)
unfolding charge_wallet add sub
charge_wallet-Charged c db =
    Ensures-or_fail (Charged c db) db.wallet record_not_found _ db λ w found.
      Ensures-or_fail (Charged c db) w.balance_exact err_projection_unavailable _ db λ b exact.
        Ensures-guard (Charged c db) (equal_fold w.currency c.currency)
          (validation "unsupported_currency") _ db
          λ fits.
            Ensures-guard (Charged c db) (not (is_negative (sub (add b (cash_delta_of c)) c.fee)))
              err_insufficient_cash _ db
              λ solvent. record {
                same = refl;
                wallet = found;
                exact = rw exact;
                balance = rw exact;
                solvent = ground arith;
                currency = fits;
              }

-- The tables after a fill, from the parts that changed.
module _ (env : Environment) (c : FillCommand) (opened db moved after : Database) (w : Wallet)
    (cash : Decimal) (ch : PositionChange) (o : Order) (f : Fill) (v : IsPrepared c)
    (books : Books db) (charged : Charged c opened (w, cash) db) (change : Moved c db ch moved)
    (wallet_after : after.wallet ≡ some (record w { balance_exact = some cash }))
    (positions_after : after.positions ≡ moved.positions)
    (next_after : after.next_position_id ≡ moved.next_position_id)
    (events_after : after.events ≡ db.events ++ fill_events env c ch o f)
    (same_currency : w.currency ≡ c.currency) where
  -- A column of the holder, against the postings: at the fill's symbol, and elsewhere.
  column_balanced :
      (column : Position → Option Decimal) (posting : LedgerEvent → Decimal) (x : ℤ)
      → ((s : String) → held column (holder s db) ≡ posted (in_symbol s) posting db.events)
      → ((s : String)
          → posted (in_symbol s) posting (fill_events env c ch o f)
            ≡ (if str_eq c.symbol s then x else pos 0))
      → integer (or_zero (column ch.position)) ≡ held column (holder c.symbol db) +ℤ x
      → (s : String) → held column (holder s after) ≡ posted (in_symbol s) posting after.events
  column_balanced column posting x before delta now s =
      rw
        (
          events_after,
          positions_after,
          change.lookups s,
          posted-append (in_symbol s) posting db.events (fill_events env c ch o f),
          delta s,
        )
        (elim (Bool-cases (str_eq c.symbol s)) [
          | inl h ↦ rw h (
              now
              ∙ ap (λ z. z +ℤ x)
                  (before c.symbol
                    ∙ ap (λ (t : String). posted (in_symbol t) posting db.events)
                        ((eq_iff c.symbol s).0 h)))
          | inr h ↦ rw h (before s ∙ omega int_laws)
        ])

  other_currency : (t : String) → t ≢ w.currency → str_eq c.currency t ≡ false
  other_currency t other = elim (Bool-cases (str_eq c.currency t)) [
    | inr h ↦ h
    | inl h ↦ absurd (other (sym (same_currency ∙ (eq_iff c.currency t).0 h)))
  ]

  cash_balanced : HoldsCash after.wallet after.events
  cash_balanced =
      let held_before : HoldsCash (some w) db.events = rw charged.wallet at books.cash in
      rw (wallet_after, events_after)
        (
          refl,
          rw
              (
                posted-append (in_currency w.currency) (λ e. e.cash_delta) db.events
                    (fill_events env c ch o f),
                cash-events env c ch o f v w.currency,
                same_currency,
                eq_refl c.currency,
              )
              (charged.balance
                ∙ +ℤ-sub (integer (or_zero w.balance_exact)) (integer (cash_delta_of c))
                    (integer c.fee)
                ∙ ap (λ z. z +ℤ (integer (cash_delta_of c) +ℤ neg (integer c.fee)))
                    (rw same_currency at held_before.1)),
          λ t other.
              rw
                (
                  posted-append (in_currency t) (λ e. e.cash_delta) db.events
                      (fill_events env c ch o f),
                  cash-events env c ch o f v t,
                )
                (rw (other_currency t other, held_before.2 t other) (omega int_laws)),
        )

  IsSettled-after : (s : String) → IsSettled (holder s after)
  IsSettled-after s =
      rw (positions_after, change.lookups s)
        (elim (Bool-cases (str_eq c.symbol s)) [
          | inl h ↦ rw h change.balances.settled
          | inr h ↦ rw h (books.settled s)
        ])

  after-Books : Books after
  after-Books = record {
    cash = cash_balanced;
    amounts =
        column_balanced (λ p. p.amount_exact) (λ e. e.asset_delta)
          (integer (asset_delta_of c) +ℤ pos 0) books.amounts (amount-events env c ch o f v)
          (rw (+ℤ_zero (integer (asset_delta_of c))) change.balances.amount);
    bases =
        column_balanced (λ p. p.cost_basis_exact) (λ e. e.cost_basis_delta)
          (integer ch.basis_delta +ℤ pos 0) books.bases (basis-events env c ch o f v)
          (rw (+ℤ_zero (integer ch.basis_delta)) change.balances.basis);
    fees =
        column_balanced (λ p. p.fees_exact) (λ e. e.fee_delta) (pos 0 +ℤ integer c.fee) books.fees
          (fee-events env c ch o f v) (rw (zero-+ℤ (integer c.fee)) change.balances.fees);
    profits =
        column_balanced (λ p. p.realized_pnl_exact) (λ e. e.realized_pnl)
          (integer ch.realized +ℤ neg (integer c.fee)) books.profits (profit-events env c ch o f v)
          (rw (+ℤ-neg (integer ch.realized) (integer c.fee)) change.balances.profit);
    settled = IsSettled-after;
    keyed = rw (positions_after, next_after) change.keyed;
  }

-- An order is written and nothing else.
abbrev pub OrdersOnly : Database → Order → Database → Type 0
OrdersOnly db o db' = db' ≡ record db { orders = db'.orders; next_order_id = db'.next_order_id }

pub upsert_filled_order-OrdersOnly :
    (c : FillCommand) (gross : Decimal) (db : Database)
    → Ensures (OrdersOnly db) (upsert_filled_order c gross db)
unfolding upsert_filled_order create_order save_order
upsert_filled_order-OrdersOnly c gross db = elim (Bool-cases (ltb 0 c.existing_order_id)) [
  | inl h ↦ rw h (
      Ensures-or_fail (OrdersOnly db) (find (λ o. o.id == c.existing_order_id) db.orders)
        record_not_found _ db
        λ o found.
          Ensures-guard (OrdersOnly db) (same_dimensions c o) (conflict "order_fill_mismatch") _ db
            λ fits. Ensures-lift (OrdersOnly db) (remaining_of c o) _ db λ remaining e. refl)
  | inr h ↦
      rw h (Ensures-lift (OrdersOnly db) (remaining_of c (new_order c)) _ db λ remaining e. refl)
]

-- The writes of a fill keep the books, whichever statement or hook ends them.
pub post_fill-Books :
    (env : Environment) (c : FillCommand) (db : Database)
    → IsPrepared c
    → Books db
    → ((w : Wallet) → db.wallet ≡ some w → w.currency ≡ c.currency)
    → Ensures (λ r db'. Books db') (post_fill env c db)
unfolding post_fill
post_fill-Books env c db v books same =
    let Q : FillResult → Database → Type 0 = λ r db'. Books db' in
    Ensures-bind (Charged c db) Q (charge_wallet c db) _ (charge_wallet-Charged c db)
      λ r db1 charged.
        let books1 : Books db1 = subst Books (sym charged.same) books in
        let same1 : r.0.currency ≡ c.currency =
          same r.0 (ap (λ (d : Database). d.wallet) (sym charged.same) ∙ charged.wallet) in
        Ensures-bind (Moved c db1) Q (apply_position c (gross_of c) db1) _
          (apply_position-Moved c (gross_of c) db1 v.account v.quantity books1.keyed
            (books1.settled c.symbol))
          λ ch db2 moved. Ensures-check Q (env.after_write "projection") _ _ (
            Ensures-bind
              (OrdersOnly (record db2 { wallet = some (record r.0 { balance_exact = some r.1 }) }))
              Q
              (upsert_filled_order c (gross_of c)
                (record db2 { wallet = some (record r.0 { balance_exact = some r.1 }) }))
              _ (upsert_filled_order-OrdersOnly c (gross_of c) _)
              λ o db4 kept. Ensures-check Q (env.after_write "order") _ _ (
                Ensures-check Q (env.after_write "fill") _ _ (
                  Ensures-check Q (env.after_write "ledger") _ _ (
                    after-Books env c db db1 db2 _ r.0 r.1 ch o (fill_row env c ch.position o) v
                      books1 charged moved (ap (λ (d : Database). d.wallet) kept)
                      (ap (λ (d : Database). d.positions) kept)
                      (ap (λ (d : Database). d.next_position_id) kept)
                      (ap
                        (λ (es : List LedgerEvent).
                          es ++ fill_events env c ch o (fill_row env c ch.position o))
                        (ap (λ (d : Database). d.events) kept
                          ∙ ap (λ (d : Database). d.events) moved.rest))
                      same1))))
