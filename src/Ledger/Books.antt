-- ===== src/Ledger/Books.antt =====
-- The invariant of the ledger: every exact projection is the sum of the postings behind it.
use trading_bot.Base.{
  ℕ, ◌<◌, ◌≡◌, ◌≢◌, Bool, true, false, ◌&&◌, Option, none, some, List, [], ◌∷◌, ◌++◌, String,
  if◌then◌else◌, str_eq, ℤ, pos, ◌+ℤ◌, int_laws,
}
use trading_bot.Accounting.Decimal.{Decimal, integer}
use trading_bot.Ledger.Error.{default_account_id}
use trading_bot.Ledger.Rows.{Wallet, Position, LedgerEvent, Database}
use trading_bot.Ledger.Store.{find_position}
use trading_bot.Ledger.Position.{or_zero, is_exact, is_open, is_set}

-- The sum of a column over the account's events that pass a test.
abbrev pub posted : (LedgerEvent → Bool) → (LedgerEvent → Decimal) → List LedgerEvent → ℤ
posted test column [] = pos 0
posted test column (e ∷ es) =
    (if str_eq e.account_id default_account_id && test e then integer (column e) else pos 0)
    +ℤ posted test column es

abbrev pub in_currency : String → LedgerEvent → Bool
in_currency currency e = str_eq e.currency currency

abbrev pub in_symbol : String → LedgerEvent → Bool
in_symbol symbol e = str_eq e.symbol symbol

-- The exact column of a position that may be missing.
abbrev pub held : (Position → Option Decimal) → Option Position → ℤ
held column none = pos 0
held column (some p) = integer (or_zero (column p))

abbrev pub holder : String → Database → Option Position
holder symbol db = find_position default_account_id symbol db.positions

-- Positions belong to the account, and have different keys and symbols.
abbrev pub Apart : Position → List Position → Type 0
Apart p [] = Unit
Apart p (q ∷ qs) = (q.id ≢ p.id) × (str_eq p.symbol q.symbol ≡ false) × Apart p qs

abbrev pub IsKeyed : ℕ → List Position → Type 0
IsKeyed bound [] = Unit
IsKeyed bound (p ∷ ps) =
    (str_eq p.account_id default_account_id ≡ true) × (p.id < bound) × Apart p ps × IsKeyed bound ps

-- A position with exact columns; a closed one holds nothing.
abbrev pub IsSettled : Option Position → Type 0
IsSettled none = Unit
IsSettled (some p) =
    (is_exact p ≡ true)
    × (is_open p ≡ false → integer (or_zero p.amount_exact) ≡ pos 0)
    × (is_open p ≡ false → integer (or_zero p.cost_basis_exact) ≡ pos 0)
    × (is_set p.fees_exact && is_set p.realized_pnl_exact ≡ true)

abbrev pub HoldsCash : Option Wallet → List LedgerEvent → Type 0
HoldsCash none events = Unit
HoldsCash (some w) events =
    (is_set w.balance_exact ≡ true)
    × (integer (or_zero w.balance_exact)
        ≡ posted (in_currency w.currency) (λ e. e.cash_delta) events)
    × ((c : String) → c ≢ w.currency → posted (in_currency c) (λ e. e.cash_delta) events ≡ pos 0)

pub record Books (db : Database) : Type 0 where
  pub cash : HoldsCash db.wallet db.events
  pub amounts :
      (s : String)
      → held (λ p. p.amount_exact) (holder s db)
        ≡ posted (in_symbol s) (λ e. e.asset_delta) db.events
  pub bases :
      (s : String)
      → held (λ p. p.cost_basis_exact) (holder s db)
        ≡ posted (in_symbol s) (λ e. e.cost_basis_delta) db.events
  pub fees :
      (s : String)
      → held (λ p. p.fees_exact) (holder s db) ≡ posted (in_symbol s) (λ e. e.fee_delta) db.events
  pub profits :
      (s : String)
      → held (λ p. p.realized_pnl_exact) (holder s db)
        ≡ posted (in_symbol s) (λ e. e.realized_pnl) db.events
  pub settled : (s : String) → IsSettled (holder s db)
  pub keyed : IsKeyed db.next_position_id db.positions

module _ (test : LedgerEvent → Bool) (column : LedgerEvent → Decimal) where
  pub posted-append :
      (es fs : List LedgerEvent)
      → posted test column (es ++ fs) ≡ posted test column es +ℤ posted test column fs
  posted-append [] fs = omega int_laws
  posted-append (e ∷ es) fs = rw (posted-append es fs) (omega int_laws)
