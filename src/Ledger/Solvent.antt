-- ===== src/Ledger/Solvent.antt =====
-- No overdraft and no short position (internal/ledger/service.go).
use trading_bot.Ledger.Order.{upsert_filled_order}
use trading_bot.Ledger.Error.{default_account_id}
use trading_bot.Ledger.Transaction.{Books-batches}
use trading_bot.Ledger.FillLaws.{
  Charged, charge_wallet-Charged, OrdersOnly, upsert_filled_order-OrdersOnly,
}
use trading_bot.Ledger.FillPostings.{IsPrepared}
use trading_bot.Ledger.ApplyFill.{apply_fill_lem, fill_transaction_lem}
use trading_bot.Ledger.Fill.{
  post_fill, Environment, apply_fill, FillResult, charge_wallet, gross_of,
}
use trading_bot.Base.Ensures.{Ensures, Ensures-bind, Ensures-and, Ensures-check}
use trading_bot.Ledger.Store.{save_position, create_position, find_position}
use trading_bot.Ledger.Command.{FillCommand}
use trading_bot.Ledger.Books.{holder, Books}
use trading_bot.Accounting.Decimal.{sub, add, is_negative, Decimal, is_positive, cmp, integer}
use trading_bot.Ledger.Rows.{Wallet, Position, Database}
use trading_bot.Base.{
  is_neg, +ℤ_parts, -ℤ_parts, ltb_ℤ, ◌≡◌, refl, sym, ap, ◌∙◌, Bool, true, false, not, ◌||◌, Option,
  none, some, String, str_eq, eq_iff, inl, inr, Bool-cases, arith, ℤ, pos, ◌+ℤ◌, ◌-ℤ◌, ltb_ℤ,
}
use mathlib.Core.Path.{subst}
use trading_bot.Ledger.Position.{
  or_zero, buy_position, apply_position, bought, sell_position, PositionChange, sold, new_position,
  is_open, is_exact, reopen,
}
use trading_bot.Ledger.PositionLaws.{Moved, apply_position-Moved}

-- The wallet and the positions hold nothing negative.
abbrev pub NotOverdrawn : Option Wallet → Type 0
NotOverdrawn none = Unit
NotOverdrawn (some w) = is_negative (or_zero w.balance_exact) ≡ false

abbrev pub NotShort : Option Position → Type 0
NotShort none = Unit
NotShort (some p) = is_negative (or_zero p.amount_exact) ≡ false

pub record Solvent (db : Database) : Type 0 where
  pub cash : NotOverdrawn db.wallet
  pub positions : (s : String) → NotShort (holder s db)

not_negative_sum : (a b : ℤ) → is_neg a ≡ false → is_neg b ≡ false → is_neg (a +ℤ b) ≡ false
not_negative_sum a b h k = ground (arith, +ℤ_parts a b)

negative_iff : (d : Decimal) → is_negative d ≡ is_neg (integer d)
negative_iff d = ground arith

not_negative_add :
    (d e : Decimal) → is_negative d ≡ false → is_positive e ≡ true → is_negative (add d e) ≡ false
unfolding add
not_negative_add d e h k =
    negative_iff (add d e) ∙ not_negative_sum (integer d) (integer e) (ground arith) (ground arith)

not_negative_difference : (a b : ℤ) → ltb_ℤ a b ≡ false → is_neg (a -ℤ b) ≡ false
not_negative_difference a b h = ground (arith, -ℤ_parts a b)

not_negative_sub : (d e : Decimal) → ltb_ℤ (pos 0) (cmp e d) ≡ false → is_negative (sub d e) ≡ false
unfolding sub
not_negative_sub d e h =
    negative_iff (sub d e) ∙ not_negative_difference (integer d) (integer e) (ground arith)

module _ (c : FillCommand) (gross : Decimal) where
  -- What a fill leaves of a position is not short.
  abbrev Covered : PositionChange → Database → Type 0
  Covered ch db = is_negative (or_zero ch.position.amount_exact) ≡ false

  bought-Covered :
      (opening_cycle : Bool) (p : Position)
      → is_positive c.quantity ≡ true
      → is_negative (or_zero p.amount_exact) ≡ false
      → is_negative (or_zero (bought opening_cycle c gross p).amount_exact) ≡ false
  unfolding bought
  bought-Covered opening_cycle p q n = not_negative_add (or_zero p.amount_exact) c.quantity n q

  buy-Covered :
      (found : Option Position) (db : Database)
      → is_positive c.quantity ≡ true
      → NotShort found
      → Ensures Covered (buy_position c gross found db)
  unfolding buy_position create_position save_position
  buy-Covered none db q n = bought-Covered true (new_position c) q new_flat
    where
      new_flat : is_negative (or_zero (new_position c).amount_exact) ≡ false
      new_flat = unfold new_position in refl
  buy-Covered (some p) db q n = elim (Bool-cases (is_exact p)) [
    | inr h ↦ rw (h, Ensures) tt
    | inl h ↦ elim (Bool-cases (is_open p)) [
      | inl o ↦ rw (h, o, Ensures) (bought-Covered false p q n)
      | inr o ↦ rw (h, o, Ensures) (bought-Covered true (reopen c p) q reopened_flat)
    ]
  ]
    where
      reopened_flat : is_negative (or_zero (reopen c p).amount_exact) ≡ false
      reopened_flat = unfold reopen in refl

  sell-Covered :
      (found : Option Position) (db : Database) → Ensures Covered (sell_position c gross found db)
  unfolding sell_position save_position sold
  sell-Covered none db = tt
  sell-Covered (some p) db = elim (Bool-cases (not (is_open p) || not (is_exact p))) [
    | inl h ↦ rw (h, Ensures) tt
    | inr h ↦ elim (Bool-cases (ltb_ℤ (pos 0) (cmp c.quantity (or_zero p.amount_exact)))) [
      | inl k ↦ rw (h, k, Ensures) tt
      | inr k ↦ rw (h, k, Ensures) (not_negative_sub (or_zero p.amount_exact) c.quantity k)
    ]
  ]

  apply_position-Covered :
      (db : Database)
      → is_positive c.quantity ≡ true
      → NotShort (find_position c.account_id c.symbol db.positions)
      → Ensures Covered (apply_position c gross db)
  unfolding apply_position
  apply_position-Covered db q n = elim (Bool-cases (str_eq c.side "buy")) [
    | inl h ↦
        rw (h, Ensures) (buy-Covered (find_position c.account_id c.symbol db.positions) db q n)
    | inr h ↦ rw (h, Ensures) (sell-Covered (find_position c.account_id c.symbol db.positions) db)
  ]

post_fill-Solvent :
    (env : Environment) (c : FillCommand) (db : Database)
    → IsPrepared c
    → Books db
    → Solvent db
    → Ensures (λ r db'. Solvent db') (post_fill env c db)
unfolding post_fill
post_fill-Solvent env c db v books solvent =
    let Q : FillResult → Database → Type 0 = λ r db'. Solvent db' in
    Ensures-bind (Charged c db) Q (charge_wallet c db) _ (charge_wallet-Charged c db)
      λ r db1 charged.
        let books1 : Books db1 = subst Books (sym charged.same) books in
        let solvent1 : Solvent db1 = subst Solvent (sym charged.same) solvent in
        let mine : NotShort (find_position c.account_id c.symbol db1.positions) =
          subst (λ (a : String). NotShort (find_position a c.symbol db1.positions))
            (sym ((eq_iff c.account_id default_account_id).0 v.account))
            (solvent1.positions c.symbol) in
        Ensures-bind (λ ch db2. Moved c db1 ch db2 × Covered c (gross_of c) ch db2) Q
          (apply_position c (gross_of c) db1) _
          (Ensures-and (Moved c db1) (Covered c (gross_of c)) (apply_position c (gross_of c) db1)
            (apply_position-Moved c (gross_of c) db1 v.account v.quantity books1.keyed
              (books1.settled c.symbol))
            (apply_position-Covered c (gross_of c) db1 v.quantity mine))
          λ ch db2 moved. Ensures-check Q (env.after_write "projection") _ _ (
            Ensures-bind
              (OrdersOnly (record db2 { wallet = some (record r.0 { balance_exact = some r.1 }) }))
              Q
              (upsert_filled_order c (gross_of c)
                (record db2 { wallet = some (record r.0 { balance_exact = some r.1 }) }))
              _ (upsert_filled_order-OrdersOnly c (gross_of c) _)
              λ o db4 kept. Ensures-check Q (env.after_write "order") _ _ (
                Ensures-check Q (env.after_write "fill") _ _ (
                  Ensures-check Q (env.after_write "ledger") _ _ (record {
                    cash = rw (ap (λ (d : Database). d.wallet) kept) charged.solvent;
                    positions = λ s.
                        rw (ap (λ (d : Database). d.positions) kept, moved.0.lookups s)
                          (elim (Bool-cases (str_eq c.symbol s)) [
                            | inl h ↦ rw h moved.1
                            | inr h ↦ rw h (solvent1.positions s)
                          ]);
                  }))))

-- No overdraft and no short position: if the books are kept and nothing is negative in the wallet
-- or in any position, then so it is after `ApplyFill`, on every path.
pub apply_fill-Solvent :
    (env : Environment) (command : FillCommand) (db : Database)
    → Books db
    → Solvent db
    → Solvent (apply_fill env command db).1
apply_fill-Solvent env command db books solvent =
    apply_fill_lem env command Solvent db solvent λ c checked.
      fill_transaction_lem env c (λ d. Books d × Solvent d) Solvent db (λ d p. p.1)
        (λ bs p. (Books-batches db bs p.0, record { cash = p.1.cash; positions = p.1.positions }))
        (λ d p. post_fill-Solvent env c d checked.prepared p.0 p.1) (books, solvent)
