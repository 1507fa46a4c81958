-- ===== src/Ledger/ReconcileLaws.antt =====
-- The reconciliation of internal/ledger/reconcile.go against the books.
use trading_bot.Ledger.Store.{ok}
use trading_bot.Ledger.Positions.{lookup}
use trading_bot.Ledger.Books.{posted, in_currency, Books, IsSettled, in_symbol, held, HoldsCash}
use trading_bot.Ledger.Error.{default_account_id}
use trading_bot.Accounting.Decimal.{Decimal, integer}
use trading_bot.Ledger.Rows.{LedgerEvent, Position, Database, Wallet}
use trading_bot.Base.{
  ℕ, ◌≡◌, refl, sym, ap, ◌∙◌, Bool, true, false, not, ◌&&◌, some, List, [], ◌∷◌, String,
  if◌then◌else◌, str_eq, eq_iff, inl, inr, Bool-cases, arith, pos, ◌+ℤ◌, int_laws, is_empty, ◌≢◌,
}
use mathlib.Core.Path.{subst}
use trading_bot.Ledger.Reconcile.{
  Tally, Totals, total, tally, post, by_symbol, current_events, empty_tally, is_seen, differences,
  cash_differences,
}
use trading_bot.Ledger.Totals.{total-accumulate, stray_none}
use trading_bot.Ledger.TallySums.{IsPast, tally_sum, cash_step, symbol_step}
use trading_bot.Ledger.Agreement.{
  Agrees, unseen_lookup, IsNamed, AreMaps, tally-AreMaps, account_positions_all, compare_exact_none,
  all_position_differences_none,
}

posted_never :
    (column : LedgerEvent → Decimal) (es : List LedgerEvent) → posted (λ e. false) column es ≡ pos 0
posted_never column [] = refl
posted_never column (e ∷ es) =
    rw (posted_never column es) (none_posted (str_eq e.account_id default_account_id))
  where
    none_posted : (b : Bool) → (if b && false then integer (column e) else pos 0) +ℤ pos 0 ≡ pos 0
    none_posted true = omega int_laws
    none_posted false = omega int_laws

differs : (s t : String) → not (str_eq s t) ≡ true → s ≢ t
differs s t h e = ground (arith, eq_iff s t)

module _ (now : ℕ) (db : Database) (books : Books db) (past : IsPast now db.events) where
  abbrev counted : Tally
  counted = tally (current_events now default_account_id db.events) empty_tally

  -- Every map of the tally, at a currency or at a symbol.
  cash_total :
      (s : String)
      → integer (total counted.cash s) ≡ posted (in_currency s) (λ e. e.cash_delta) db.events
  cash_total s =
      tally_sum (λ t. t.cash) (λ e. e.cash_delta) (in_currency s) s (cash_step s) now db.events
        empty_tally past
      ∙ omega int_laws

  module _ (s : String) (named : is_empty s ≡ false) where
    abbrev SymbolTotal : (map_of : Tally → Totals) (column : LedgerEvent → Decimal) → Type 0
    SymbolTotal map_of column =
        integer (total (map_of counted) s) ≡ posted (in_symbol s) column db.events

    asset_total : SymbolTotal (λ t. t.assets) (λ e. e.asset_delta)
    unfolding post
    asset_total =
        tally_sum (λ t. t.assets) (λ e. e.asset_delta) (in_symbol s) s
          (λ e t. symbol_step s e.symbol e.asset_delta t.assets named) now db.events empty_tally
          past
        ∙ omega int_laws

    basis_total : SymbolTotal (λ t. t.basis) (λ e. e.cost_basis_delta)
    unfolding post
    basis_total =
        tally_sum (λ t. t.basis) (λ e. e.cost_basis_delta) (in_symbol s) s
          (λ e t. symbol_step s e.symbol e.cost_basis_delta t.basis named) now db.events empty_tally
          past
        ∙ omega int_laws

    fees_total : SymbolTotal (λ t. t.fees_symbol) (λ e. e.fee_delta)
    unfolding post
    fees_total =
        tally_sum (λ t. t.fees_symbol) (λ e. e.fee_delta) (in_symbol s) s
          (λ e t. symbol_step s e.symbol e.fee_delta t.fees_symbol named) now db.events empty_tally
          past
        ∙ omega int_laws

    profits_total : SymbolTotal (λ t. t.profits_symbol) (λ e. e.realized_pnl)
    unfolding post
    profits_total =
        tally_sum (λ t. t.profits_symbol) (λ e. e.realized_pnl) (in_symbol s) s
          (λ e t. symbol_step s e.symbol e.realized_pnl t.profits_symbol named) now db.events
          empty_tally past
        ∙ omega int_laws

  holder-Agrees :
      (q : Position)
      → is_empty q.symbol ≡ false
      → lookup q.symbol db.positions ≡ some q
      → Agrees counted q
  holder-Agrees q named found =
      let settled : IsSettled (some q) = subst IsSettled found (books.settled q.symbol) in
      record {
        exact = settled.0;
        costs = settled.3;
        amount =
            ap (held (λ p. p.amount_exact)) (sym found)
            ∙ books.amounts q.symbol
            ∙ sym (asset_total q.symbol named);
        basis =
            ap (held (λ p. p.cost_basis_exact)) (sym found)
            ∙ books.bases q.symbol
            ∙ sym (basis_total q.symbol named);
        fees =
            ap (held (λ p. p.fees_exact)) (sym found)
            ∙ books.fees q.symbol
            ∙ sym (fees_total q.symbol named);
        profit =
            ap (held (λ p. p.realized_pnl_exact)) (sym found)
            ∙ books.profits q.symbol
            ∙ sym (profits_total q.symbol named);
      }

  -- No event is counted under the empty symbol.
  unnamed_total : (s : String) → is_empty s ≡ true → integer (total counted.assets s) ≡ pos 0
  unfolding post
  unnamed_total s h =
      tally_sum (λ t. t.assets) (λ e. e.asset_delta) (λ e. false) s unnamed_step now db.events
        empty_tally past
      ∙ rw (posted_never (λ e. e.asset_delta) db.events) (omega int_laws)
    where
      unnamed_step :
          (e : LedgerEvent) (t : Tally)
          → integer (total (by_symbol e.symbol e.asset_delta t.assets) s)
            ≡ integer (total t.assets s) +ℤ pos 0
      unnamed_step e t = elim (Bool-cases (is_empty e.symbol)) [
        | inl k ↦ rw k (omega int_laws)
        | inr k ↦
            rw (k, total-accumulate e.symbol e.asset_delta t.assets s, (eq_iff s "").0 h, k)
              (omega int_laws)
      ]

  unseen_total :
      (s : String) → not (is_seen db.positions s) ≡ true → integer (total counted.assets s) ≡ pos 0
  unseen_total s h = elim (Bool-cases (is_empty s)) [
    | inl e ↦ unnamed_total s e
    | inr n ↦
        asset_total s n
        ∙ sym (books.amounts s)
        ∙ ap (held (λ p. p.amount_exact)) (unseen_lookup s db.positions (ground arith))
  ]

  -- The reconciliation finds nothing in kept books: if every exact projection is the sum of the
  -- postings behind it, the wallet is the account's, every event was recorded by now and every
  -- position has a symbol, then `reconcileCurrent` reports no difference in cash, in a foreign
  -- currency, in an amount, a cost basis, fees or realized profit, nor in a symbol without a
  -- position.
  pub reconcile-Books :
      (w : Wallet)
      → db.wallet ≡ some w
      → str_eq w.account_id default_account_id ≡ true
      → IsNamed db.positions
      → differences now default_account_id db ≡ ok []
  unfolding differences cash_differences
  reconcile-Books w found account named =
      let held_cash : HoldsCash (some w) db.events = rw found at books.cash in
      let maps : AreMaps counted =
        tally-AreMaps (current_events now default_account_id db.events) empty_tally
          (record { cash = tt; assets = tt }) in
      rw
        (
          found,
          account,
          account_positions_all db.next_position_id db.positions books.keyed,
          compare_exact_none "cash" w.currency w.balance_exact (total counted.cash w.currency)
              held_cash.0 (held_cash.1 ∙ sym (cash_total w.currency)),
          stray_none "unsupported_currency" (λ currency. not (str_eq currency w.currency))
              counted.cash maps.cash (λ s h. cash_total s ∙ held_cash.2 s (differs s w.currency h)),
          all_position_differences_none counted db.next_position_id db.positions books.keyed named
              holder-Agrees,
          stray_none "asset" (λ symbol. not (is_seen db.positions symbol)) counted.assets
              maps.assets unseen_total,
        )
        refl
