-- ===== src/Ledger/TallySums.antt =====
-- The maps of the reconciliation hold the sums of the postings (internal/ledger/reconcile.go).
use trading_bot.Ledger.Books.{posted, in_currency}
use trading_bot.Ledger.Error.{default_account_id}
use trading_bot.Accounting.Decimal.{Decimal, integer}
use trading_bot.Ledger.Rows.{LedgerEvent}
use trading_bot.Base.{
  ℕ, ◌≡◌, ◌∙◌, Bool, true, false, List, [], ◌∷◌, String, if◌then◌else◌, str_eq, eq_iff, inl, inr,
  Bool-cases, leb, arith, pos, ◌+ℤ◌, int_laws, is_empty, all,
}
use trading_bot.Ledger.Reconcile.{Tally, Totals, total, tally, post, by_symbol, current_events}
use trading_bot.Ledger.Totals.{total-accumulate}

-- Every event was recorded as of now.
abbrev pub IsPast : ℕ → List LedgerEvent → Type 0
IsPast now es = all (λ e. leb e.occurred_at now) es ≡ true

IsPast-cons :
    (now : ℕ) (e : LedgerEvent) (es : List LedgerEvent)
    → IsPast now (e ∷ es)
    → (leb e.occurred_at now ≡ true) × IsPast now es
IsPast-cons now e es h = ground arith

module _ (map_of : Tally → Totals) (column : LedgerEvent → Decimal) (test : LedgerEvent → Bool)
    (s : String)
    (step : (e : LedgerEvent) (t : Tally)
      → integer (total (map_of (post e t)) s)
        ≡ integer (total (map_of t) s) +ℤ (if test e then integer (column e) else pos 0))
    (now : ℕ) where
  -- A map of the tally holds the sum of its column over the account's events.
  pub tally_sum :
      (es : List LedgerEvent) (t : Tally)
      → IsPast now es
      → integer (total (map_of (tally (current_events now default_account_id es) t)) s)
        ≡ integer (total (map_of t) s) +ℤ posted test column es
  unfolding tally current_events
  tally_sum [] t past = omega int_laws
  tally_sum (e ∷ es) t past = elim (Bool-cases (str_eq e.account_id default_account_id)) [
    | inl h ↦
        rw (h, (IsPast-cons now e es past).0)
          (tally_sum es (post e t) (IsPast-cons now e es past).1 ∙ rw (step e t) (omega int_laws))
    | inr h ↦ rw h (tally_sum es t (IsPast-cons now e es past).1 ∙ omega int_laws)
  ]

pub cash_step :
    (s : String) (e : LedgerEvent) (t : Tally)
    → integer (total (post e t).cash s)
      ≡ integer (total t.cash s) +ℤ (if in_currency s e then integer e.cash_delta else pos 0)
unfolding post
cash_step s e t = total-accumulate e.currency e.cash_delta t.cash s

-- A map by symbol takes an event of another symbol, or of none, for nothing.
pub symbol_step :
    (s symbol : String) (delta : Decimal) (ts : Totals)
    → is_empty s ≡ false
    → integer (total (by_symbol symbol delta ts) s)
      ≡ integer (total ts s) +ℤ (if str_eq symbol s then integer delta else pos 0)
symbol_step s symbol delta ts named = elim (Bool-cases (is_empty symbol)) [
  | inl h ↦ rw (h, apart h) (omega int_laws)
  | inr h ↦ rw h (total-accumulate symbol delta ts s)
]
  where
    apart : is_empty symbol ≡ true → str_eq symbol s ≡ false
    apart h = elim (Bool-cases (str_eq symbol s)) [
      | inr n ↦ n
      | inl e ↦ ground (arith, eq_iff symbol s, eq_iff symbol "", eq_iff s "")
    ]
