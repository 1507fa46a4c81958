-- ===== src/Ledger/Agreement.antt =====
-- A position that agrees with the tally has no differences (internal/ledger/reconcile.go).
use trading_bot.Ledger.Positions.{lookup, lookup-Apart}
use trading_bot.Ledger.Position.{is_set, or_zero, is_exact}
use trading_bot.Ledger.Books.{IsKeyed}
use trading_bot.Ledger.Error.{default_account_id}
use trading_bot.Accounting.Decimal.{Decimal, integer}
use trading_bot.Ledger.Rows.{LedgerEvent, Position}
use trading_bot.Base.{
  ℕ, ◌≡◌, refl, Bool, true, false, not, ◌&&◌, Option, none, some, List, [], ◌∷◌, String, eq_refl,
  inl, inr, Bool-cases, arith, is_empty, all,
}
use trading_bot.Ledger.Reconcile.{
  Tally, Totals, total, tally, post, by_symbol, compare_exact, position_differences,
  all_position_differences, is_seen, account_positions,
}
use trading_bot.Ledger.Totals.{IsMap, accumulate-IsMap}

-- Every map of the tally has different keys.
pub record AreMaps (t : Tally) : Type 0 where
  pub cash : IsMap t.cash
  pub assets : IsMap t.assets

by_symbol-IsMap :
    (symbol : String) (delta : Decimal) (ts : Totals) → IsMap ts → IsMap (by_symbol symbol delta ts)
by_symbol-IsMap symbol delta ts m = elim (Bool-cases (is_empty symbol)) [
  | inl h ↦ rw h m
  | inr h ↦ rw h (accumulate-IsMap symbol delta ts m)
]

pub tally-AreMaps : (es : List LedgerEvent) (t : Tally) → AreMaps t → AreMaps (tally es t)
unfolding tally post
tally-AreMaps [] t m = m
tally-AreMaps (e ∷ es) t m = tally-AreMaps es (post e t) (record {
  cash = accumulate-IsMap e.currency e.cash_delta t.cash m.cash;
  assets = by_symbol-IsMap e.symbol e.asset_delta t.assets m.assets;
})

pub compare_exact_none :
    (dimension key : String) (projection : Option Decimal) (value : Decimal)
    → is_set projection ≡ true
    → integer (or_zero projection) ≡ integer value
    → compare_exact dimension key projection value ≡ []
unfolding compare_exact
compare_exact_none dimension key none value h e = ground arith
compare_exact_none dimension key (some d) value h e = rw e (ground arith)

-- Every position has a symbol.
abbrev pub IsNamed : List Position → Type 0
IsNamed ps = all (λ p. not (is_empty p.symbol)) ps ≡ true

-- A position whose columns are the tally's totals for its symbol.
pub record Agrees (t : Tally) (p : Position) : Type 0 where
  pub exact : is_exact p ≡ true
  pub costs : is_set p.fees_exact && is_set p.realized_pnl_exact ≡ true
  pub amount : integer (or_zero p.amount_exact) ≡ integer (total t.assets p.symbol)
  pub basis : integer (or_zero p.cost_basis_exact) ≡ integer (total t.basis p.symbol)
  pub fees : integer (or_zero p.fees_exact) ≡ integer (total t.fees_symbol p.symbol)
  pub profit : integer (or_zero p.realized_pnl_exact) ≡ integer (total t.profits_symbol p.symbol)

both : (a b : Bool) → a && b ≡ true → (a ≡ true) × (b ≡ true)
both a b h = ground arith

pub position_differences_none :
    (t : Tally) (p : Position) → Agrees t p → position_differences t p ≡ []
unfolding position_differences
position_differences_none t p a =
    let exact = both (is_set p.amount_exact) (is_set p.cost_basis_exact) a.exact in
    let costs = both (is_set p.fees_exact) (is_set p.realized_pnl_exact) a.costs in
    rw
      (
        compare_exact_none "asset" p.symbol p.amount_exact (total t.assets p.symbol) exact.0
            a.amount,
        compare_exact_none "cost_basis" p.symbol p.cost_basis_exact (total t.basis p.symbol) exact.1
            a.basis,
        compare_exact_none "fees" p.symbol p.fees_exact (total t.fees_symbol p.symbol) costs.0
            a.fees,
        compare_exact_none "realized_pnl" p.symbol p.realized_pnl_exact
            (total t.profits_symbol p.symbol) costs.1 a.profit,
      )
      refl

lookup_self :
    (bound : ℕ) (p : Position) (ps : List Position)
    → IsKeyed bound (p ∷ ps)
    → lookup p.symbol (p ∷ ps) ≡ some p
lookup_self bound p ps k = rw (k.0, eq_refl p.symbol) refl

IsNamed-cons :
    (p : Position) (ps : List Position)
    → IsNamed (p ∷ ps)
    → (is_empty p.symbol ≡ false) × IsNamed ps
IsNamed-cons p ps h = ground arith

pub all_position_differences_none :
    (t : Tally) (bound : ℕ) (ps : List Position)
    → IsKeyed bound ps
    → IsNamed ps
    → ((q : Position) → is_empty q.symbol ≡ false → lookup q.symbol ps ≡ some q → Agrees t q)
    → all_position_differences t ps ≡ []
unfolding all_position_differences
all_position_differences_none t bound [] k n h = refl
all_position_differences_none t bound (p ∷ ps) k n h =
    rw (position_differences_none t p (h p (IsNamed-cons p ps n).0 (lookup_self bound p ps k))) (
      all_position_differences_none t bound ps k.3 (IsNamed-cons p ps n).1
        λ q m l. h q m (rw (k.0, (lookup-Apart p q q.symbol ps k.2 l).1) l))

pub account_positions_all :
    (bound : ℕ) (ps : List Position)
    → IsKeyed bound ps
    → account_positions default_account_id ps ≡ ps
account_positions_all bound [] k = refl
account_positions_all bound (p ∷ ps) k = rw (k.0, account_positions_all bound ps k.3) refl

pub unseen_lookup : (s : String) (ps : List Position) → is_seen ps s ≡ false → lookup s ps ≡ none
unseen_lookup s [] h = refl
unseen_lookup s (p ∷ ps) h = ground (arith, unseen_lookup s ps)
