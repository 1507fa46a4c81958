-- ===== src/Ledger/Reconcile.antt =====
-- The differences that `reconcileCurrent` reports (internal/ledger/reconcile.go): the sums of the
-- postings in maps, compared with the wallet and the positions. A Go map is an association list in
-- the order of its first insertions; the report sorts its differences, so that order is not seen.
use trading_bot.Base.{
  ℕ, Bool, if◌then◌else◌, [], String, List, is_empty, any, str_eq, Option, ◌∷◌, none, ◌++◌, not,
  ◌&&◌, some, ◌||◌, eqb_ℤ, leb, pos,
}
use trading_bot.Accounting.Decimal.{Decimal, add, sub, negate, cmp, is_zero}
use trading_bot.Accounting.Text.{to_string}
use trading_bot.Ledger.Error.{record_not_found}
use trading_bot.Ledger.Rows.{Wallet, Position, LedgerEvent, Database}
use trading_bot.Ledger.Store.{Result, ok, err}

-- `map[string]accounting.Decimal`; a missing key reads as the nil Decimal.
abbrev pub Totals : Type 0
Totals = List (String × Decimal)

abbrev pub total : Totals → String → Decimal
total [] key = record { value = none }
total (t ∷ ts) key = if str_eq t.0 key then t.1 else total ts key

-- `m[key] = m[key].Add(delta)`
unfoldable pub accumulate : String → Decimal → Totals → Totals
accumulate key delta [] = (key, add (record { value = none }) delta) ∷ []
accumulate key delta (t ∷ ts) =
    let rest = accumulate key delta ts in
    if str_eq t.0 key then (t.0, add t.1 delta) ∷ ts else t ∷ rest

pub record Tally : Type 0 where
  pub cash : Totals
  pub assets : Totals
  pub fees_currency : Totals
  pub profits_currency : Totals
  pub basis : Totals
  pub fees_symbol : Totals
  pub profits_symbol : Totals

abbrev pub empty_tally : Tally
empty_tally = record {
  cash = [];
  assets = [];
  fees_currency = [];
  profits_currency = [];
  basis = [];
  fees_symbol = [];
  profits_symbol = [];
}

-- Only an event with a symbol enters the maps by symbol.
abbrev pub by_symbol : String → Decimal → Totals → Totals
by_symbol symbol delta ts = if is_empty symbol then ts else accumulate symbol delta ts

abbrev pub is_fee : LedgerEvent → Bool
is_fee e = str_eq e.event_type "trading_fee" || str_eq e.event_type "exchange_fee"

-- One turn of the loop over the events.
unfoldable pub post : LedgerEvent → Tally → Tally
post e t = record {
  cash = accumulate e.currency e.cash_delta t.cash;
  assets = by_symbol e.symbol e.asset_delta t.assets;
  fees_currency =
      if is_fee e
      then accumulate e.currency (negate e.cash_delta) t.fees_currency
      else t.fees_currency;
  profits_currency = accumulate e.currency e.realized_pnl t.profits_currency;
  basis = by_symbol e.symbol e.cost_basis_delta t.basis;
  fees_symbol = by_symbol e.symbol e.fee_delta t.fees_symbol;
  profits_symbol = by_symbol e.symbol e.realized_pnl t.profits_symbol;
}

unfoldable pub tally : List LedgerEvent → Tally → Tally
tally [] t = t
tally (e ∷ es) t = tally es (post e t)

-- The account's events up to now.
unfoldable pub current_events : ℕ → String → List LedgerEvent → List LedgerEvent
current_events now account [] = []
current_events now account (e ∷ es) =
    let rest = current_events now account es in
    if str_eq e.account_id account && leb e.occurred_at now then e ∷ rest else rest

pub record Difference : Type 0 where
  pub dimension : String
  pub key : String
  pub ledger : List ℕ
  pub projection : Option (List ℕ)
  pub difference : Option (List ℕ)

-- A projection against the ledger's value: none, or the difference between them.
unfoldable pub compare_exact : String → String → Option Decimal → Decimal → List Difference
compare_exact dimension key none value =
    record {
      dimension = dimension;
      key = key;
      ledger = to_string value;
      projection = none;
      difference = none;
    }
    ∷ []
compare_exact dimension key (some projection) value =
    if eqb_ℤ (cmp projection value) (pos 0)
    then []
    else record {
      dimension = dimension;
      key = key;
      ledger = to_string value;
      projection = some (to_string projection);
      difference = some (to_string (sub projection value));
    }
      ∷ []

abbrev pub missing_projection : String → String × Decimal → Difference
missing_projection dimension t = record {
  dimension = dimension;
  key = t.0;
  ledger = to_string t.1;
  projection = none;
  difference = none;
}

-- The totals that pass a test and are not 0.
unfoldable pub stray : String → (String → Bool) → Totals → List Difference
stray dimension test [] = []
stray dimension test (t ∷ ts) =
    let rest = stray dimension test ts in
    if test t.0 && not (is_zero t.1) then missing_projection dimension t ∷ rest else rest

unfoldable pub cash_differences : Wallet → Tally → List Difference
cash_differences w t =
    compare_exact "cash" w.currency w.balance_exact (total t.cash w.currency)
    ++ stray "unsupported_currency" (λ currency. not (str_eq currency w.currency)) t.cash

unfoldable pub position_differences : Tally → Position → List Difference
position_differences t p =
    compare_exact "asset" p.symbol p.amount_exact (total t.assets p.symbol)
    ++ compare_exact "cost_basis" p.symbol p.cost_basis_exact (total t.basis p.symbol)
    ++ compare_exact "fees" p.symbol p.fees_exact (total t.fees_symbol p.symbol)
    ++ compare_exact "realized_pnl" p.symbol p.realized_pnl_exact (total t.profits_symbol p.symbol)

abbrev pub account_positions : String → List Position → List Position
account_positions account [] = []
account_positions account (p ∷ ps) =
    let rest = account_positions account ps in
    if str_eq p.account_id account then p ∷ rest else rest

unfoldable pub all_position_differences : Tally → List Position → List Difference
all_position_differences t [] = []
all_position_differences t (p ∷ ps) = position_differences t p ++ all_position_differences t ps

-- A position of the account has the symbol.
abbrev pub is_seen : List Position → String → Bool
is_seen ps symbol = any (λ p. str_eq p.symbol symbol) ps

unfoldable pub differences : ℕ → String → Database → Result (List Difference)
differences now account db = elim db.wallet [
  | none ↦ err record_not_found
  | some w ↦
      if not (str_eq w.account_id account)
      then err record_not_found
      else let t = tally (current_events now account db.events) empty_tally in
        let ps = account_positions account db.positions in
        ok (
          cash_differences w t
          ++ all_position_differences t ps
          ++ stray "asset" (λ symbol. not (is_seen ps symbol)) t.assets)
]
