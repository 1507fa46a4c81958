-- ===== src/Ledger/AdjustmentLaws.antt =====
-- `ApplyAdjustment` keeps the books (internal/ledger/adjustment.go).
use trading_bot.Ledger.ApplyFill.{primary_account}
use trading_bot.Ledger.Position.{or_zero}
use trading_bot.Base.{refl, Option-cases, inr, inl, ◌++◌, ◌∷◌, [], ◌∙◌, sym, ap, Bool-cases}
use trading_bot.Accounting.Decimal.{is_negative, add}
use trading_bot.Ledger.Books.{Books}
use trading_bot.Ledger.Error.{
  default_account_id, record_not_found, err_projection_unavailable, validation,
  err_insufficient_cash, require_primary_account,
}
use trading_bot.Ledger.Rows.{Database, Wallet, LedgerEvent}
use trading_bot.Ledger.Fill.{Environment}
use trading_bot.Ledger.Adjustment.{
  adjust_wallet, AdjustmentCommand, load_event, post_adjustment, load_adjustment, AdjustmentResult,
  adjustment_delta, adjustment_event, prepare_adjustment, check_adjustment, adjustment_defaults,
  apply_adjustment, adjustment_transaction,
}
use trading_bot.Base.{ℕ, String, str_eq, equal_fold, not, ◌≡◌, some, true, arith, false}
use mathlib.Core.Path.{subst}
use trading_bot.Ledger.Transaction.{
  BatchOnly, begin_batch-BatchOnly, require_ready_same, Books-batches, transaction-keeps,
}
use trading_bot.Ledger.Store.{Result, ok, err, find, require_ready}
use trading_bot.Base.Ensures.{
  Ensures, Ensures-bind, Ensures-weaken, Ensures-check, Ensures-guard, Ensures-or_fail,
  Ensures-found,
}
use trading_bot.Ledger.CashEvents.{cash-event-Books}

-- What the checks establish of the command that the transaction runs on.
prepare_adjustment_lem :
    (now : ℕ) (command c : AdjustmentCommand)
    → prepare_adjustment now command ≡ ok c
    → (str_eq c.account_id default_account_id ≡ true) × (c.currency ≡ command.currency)
unfolding prepare_adjustment
prepare_adjustment_lem now command c h =
    elim (Option-cases (require_primary_account command.account_id)) [
      | inr (e, p) ↦ ground (arith, p)
      | inl p ↦ elim (Option-cases (check_adjustment now (adjustment_defaults now command))) [
        | inr (e, q) ↦ ground (arith, p, q)
        | inl q ↦
            let same : c ≡ adjustment_defaults now command = ground (arith, p, q) in
            rw same (unfold adjustment_defaults in (primary_account command.account_id p, refl))
      ]
    ]

-- The adjusted wallet, and the tables as they were.
pub record Adjusted (c : AdjustmentCommand) (db : Database) (w' : Wallet) (db' : Database)
    : Type 0 where
  pub same : db' ≡ db
  pub before : Wallet
  pub found : db.wallet ≡ some before
  pub after : w' ≡ record before {
    balance_exact = some (add (or_zero before.balance_exact) (adjustment_delta c));
  }
  pub solvent : is_negative (add (or_zero before.balance_exact) (adjustment_delta c)) ≡ false
  pub currency : equal_fold before.currency c.currency ≡ true

adjust_wallet-Adjusted :
    (c : AdjustmentCommand) (db : Database) → Ensures (Adjusted c db) (adjust_wallet c db)
unfolding adjust_wallet
adjust_wallet-Adjusted c db =
    Ensures-or_fail (Adjusted c db) db.wallet record_not_found _ db λ w found.
      Ensures-or_fail (Adjusted c db) w.balance_exact err_projection_unavailable _ db λ b exact.
        Ensures-guard (Adjusted c db) (equal_fold w.currency c.currency)
          (validation "unsupported_currency") _ db
          λ fits.
            Ensures-guard (Adjusted c db) (not (is_negative (add b (adjustment_delta c))))
              err_insufficient_cash _ db
              λ solvent. record {
                same = refl;
                before = w;
                found = found;
                after = rw exact refl;
                solvent = rw exact (ground arith);
                currency = fits;
              }

pub load_event_same :
    (batch : String) (db : Database) → Ensures (λ e db'. db' ≡ db) (load_event batch db)
unfolding load_event
load_event_same batch db =
    let P : LedgerEvent → Database → Type 0 = λ e db'. db' ≡ db in
    Ensures-found P (find (λ e. str_eq e.ledger_batch_id batch) db.events) record_not_found db
      λ e p. refl

load_adjustment_same :
    (c : AdjustmentCommand) (db : Database)
    → Ensures (λ (r : AdjustmentResult) db'. db' ≡ db) (load_adjustment c db)
unfolding load_adjustment
load_adjustment_same c db =
    let P : LedgerEvent → Database → Type 0 = λ e db'. db' ≡ db in
    let Q : AdjustmentResult → Database → Type 0 = λ r db'. db' ≡ db in
    Ensures-bind P Q (load_event c.idempotency_key db) _ (load_event_same c.idempotency_key db)
      λ e db1 same. Ensures-or_fail Q db1.wallet record_not_found _ db1 λ w p. same

module _ (env : Environment) (c : AdjustmentCommand) (db : Database) where
  post_adjustment-Books :
      str_eq c.account_id default_account_id ≡ true
      → Books db
      → ((w : Wallet) → db.wallet ≡ some w → w.currency ≡ c.currency)
      → Ensures (λ (r : AdjustmentResult) db'. Books db') (post_adjustment env c db)
  unfolding post_adjustment adjustment_event add
  post_adjustment-Books account books same =
      let Q : AdjustmentResult → Database → Type 0 = λ r db'. Books db' in
      Ensures-bind (Adjusted c db) Q (adjust_wallet c db) _ (adjust_wallet-Adjusted c db) λ w db1 a.
        Ensures-check Q (env.after_write "ledger") _ _ (
          subst
            (λ (d : Database).
              Books
                (record d { wallet = some w; events = d.events ++ adjustment_event env c ∷ [] }))
            (sym a.same)
            (subst
              (λ (x : Wallet).
                Books (record db {
                  wallet = some x;
                  events = db.events ++ adjustment_event env c ∷ [];
                }))
              (sym a.after)
              (cash-event-Books db a.before (adjustment_event env c)
                (add (or_zero a.before.balance_exact) (adjustment_delta c)) books a.found account
                (sym (same a.before a.found)) refl refl refl refl refl)))

module _ (env : Environment) (payload_hash : AdjustmentCommand → String) (db : Database) where
  adjustment_transaction-Books :
      (c : AdjustmentCommand)
      → str_eq c.account_id default_account_id ≡ true
      → Books db
      → ((w : Wallet) → db.wallet ≡ some w → w.currency ≡ c.currency)
      → Ensures (λ r db'. Books db') (adjustment_transaction env payload_hash c db)
  unfolding adjustment_transaction
  adjustment_transaction-Books c account books same =
      let Q : AdjustmentResult → Database → Type 0 = λ r db'. Books db' in
      Ensures-check Q env.set_role _ db (
        Ensures-check Q (env.lock_account c.account_id) _ db (
          Ensures-bind (BatchOnly db) Q _ _
            (begin_batch-BatchOnly c.idempotency_key c.account_id _ _ db)
            λ already db1 kept.
              let books1 : Books db1 =
                subst Books (sym kept) (Books-batches db db1.batches books) in
              let same1 : (w : Wallet) → db1.wallet ≡ some w → w.currency ≡ c.currency =
                λ w p. same w (sym (ap (λ (d : Database). d.wallet) kept) ∙ p) in
              elim (Bool-cases already) [
                | inl p ↦ rw p (
                    Ensures-weaken (λ (r : AdjustmentResult) db2. db2 ≡ db1) Q
                      (load_adjustment c db1) (λ r db2 e. subst Books (sym e) books1)
                      (load_adjustment_same c db1))
                | inr p ↦ rw p (
                    Ensures-bind _ Q (require_ready c.account_id db1) _
                      (require_ready_same c.account_id db1)
                      λ t db2 e.
                        post_adjustment-Books env c db2 account (subst Books (sym e) books1)
                          (λ w p. same1 w (sym (ap (λ (d : Database). d.wallet) e) ∙ p)))
              ]))

  -- An adjustment keeps the books: if every exact projection of the wallet and the positions is
  -- the sum of the postings behind it (with the conditions on positions of the books), and the
  -- wallet's currency is spelled as in the command, then the same holds of the tables that
  -- `ApplyAdjustment` leaves, whether it succeeds, is a repetition or fails.
  pub apply_adjustment-Books :
      (command : AdjustmentCommand)
      → Books db
      → ((w : Wallet) → db.wallet ≡ some w → w.currency ≡ command.currency)
      → Books (apply_adjustment env payload_hash command db).1
  unfolding apply_adjustment
  apply_adjustment-Books command books same = kept (prepare_adjustment env.now command) refl
    where
      kept :
          (r : Result AdjustmentCommand)
          → prepare_adjustment env.now command ≡ r
          → Books (apply_adjustment env payload_hash command db).1
      kept (err e) p = rw (p, apply_adjustment) books
      kept (ok c) p =
          let checked = prepare_adjustment_lem env.now command c p in
          rw (p, apply_adjustment)
            (transaction-keeps Books (adjustment_transaction env payload_hash c) db books
              (adjustment_transaction-Books c checked.0 books λ w q. same w q ∙ sym checked.1))
