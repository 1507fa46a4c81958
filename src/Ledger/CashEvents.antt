-- ===== src/Ledger/CashEvents.antt =====
-- An event that moves cash only, and the wallet with it, keeps the books (internal/ledger).
use trading_bot.Ledger.Error.{default_account_id}
use trading_bot.Ledger.Position.{or_zero}
use trading_bot.Ledger.Books.{Books, posted, HoldsCash, posted-append, in_currency, in_symbol}
use trading_bot.Accounting.Decimal.{Decimal, integer}
use trading_bot.Ledger.Rows.{LedgerEvent, Database, Wallet}
use trading_bot.Base.{
  refl, false, Bool, List, str_eq, ◌≡◌, true, pos, some, ◌++◌, ◌∷◌, [], if◌then◌else◌, ◌+ℤ◌,
  int_laws, ◌&&◌, eq_refl, ◌∙◌, sym, ap, Bool-cases, inl, eq_iff, inr,
}

pub posted-last :
    (test : LedgerEvent → Bool) (column : LedgerEvent → Decimal) (es : List LedgerEvent)
    (e : LedgerEvent)
    → str_eq e.account_id default_account_id ≡ true
    → posted test column (es ++ e ∷ [])
      ≡ posted test column es +ℤ (if test e then integer (column e) else pos 0)
posted-last test column es e h = rw (posted-append test column es (e ∷ []), h) (omega int_laws)

-- An event whose column is 0 adds nothing to its sum.
pub posted-idle :
    (test : LedgerEvent → Bool) (column : LedgerEvent → Decimal) (es : List LedgerEvent)
    (e : LedgerEvent)
    → integer (column e) ≡ pos 0
    → posted test column (es ++ e ∷ []) ≡ posted test column es
posted-idle test column es e z =
    rw (posted-append test column es (e ∷ []), z)
      (rw (none_posted (str_eq e.account_id default_account_id && test e)) (omega int_laws))
  where
    none_posted : (b : Bool) → (if b then pos 0 else pos 0) ≡ pos 0
    none_posted true = refl
    none_posted false = refl

module _ (db : Database) (w : Wallet) (e : LedgerEvent) (b : Decimal) (books : Books db)
    (found : db.wallet ≡ some w) (account : str_eq e.account_id default_account_id ≡ true)
    (same_currency : e.currency ≡ w.currency)
    (balance : integer b ≡ integer (or_zero w.balance_exact) +ℤ integer e.cash_delta) where
  abbrev wallet_after : Wallet
  wallet_after = record w { balance_exact = some b }

  pub HoldsCash-event : HoldsCash (some wallet_after) (db.events ++ e ∷ [])
  HoldsCash-event =
      let before : HoldsCash (some w) db.events = rw found at books.cash in
      (
        refl,
        rw
            (
              posted-last (in_currency w.currency) (λ x. x.cash_delta) db.events e account,
              same_currency,
              eq_refl w.currency,
            )
            (balance ∙ ap (λ z. z +ℤ integer e.cash_delta) before.1),
        λ t other.
            rw (posted-last (in_currency t) (λ x. x.cash_delta) db.events e account)
              (elim (Bool-cases (str_eq e.currency t)) [
                | inl h ↦ absurd (other (sym (sym same_currency ∙ (eq_iff e.currency t).0 h)))
                | inr h ↦ rw (h, before.2 t other) (omega int_laws)
              ]),
      )

  pub cash-event-Books :
      integer e.asset_delta ≡ pos 0
      → integer e.cost_basis_delta ≡ pos 0
      → integer e.fee_delta ≡ pos 0
      → integer e.realized_pnl ≡ pos 0
      → Books (record db { wallet = some wallet_after; events = db.events ++ e ∷ [] })
  cash-event-Books asset basis fee profit = record {
    cash = HoldsCash-event;
    amounts = λ s.
        books.amounts s ∙ sym (posted-idle (in_symbol s) (λ x. x.asset_delta) db.events e asset);
    bases = λ s.
        books.bases s ∙ sym (posted-idle (in_symbol s) (λ x. x.cost_basis_delta) db.events e basis);
    fees = λ s. books.fees s ∙ sym (posted-idle (in_symbol s) (λ x. x.fee_delta) db.events e fee);
    profits = λ s.
        books.profits s ∙ sym (posted-idle (in_symbol s) (λ x. x.realized_pnl) db.events e profit);
    settled = books.settled;
    keyed = books.keyed;
  }
