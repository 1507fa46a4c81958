-- ===== src/Ledger/ApplyFill.antt =====
-- `ApplyFill` of internal/ledger/service.go as a whole: its checks, its transaction and what it
-- leaves behind.
use trading_bot.Ledger.Transaction.{
  BatchOnly, begin_batch-BatchOnly, transaction-keeps, Books-batches, require_ready_same,
}
use trading_bot.Base.Ensures.{Ensures-weaken, Ensures, Ensures-or_fail, Ensures-check, Ensures-bind}
use trading_bot.Ledger.Books.{Books}
use trading_bot.Ledger.Fill.{
  load_fill_result, Environment, fill_transaction, FillResult, apply_fill, post_fill,
}
use trading_bot.Ledger.Rows.{Database, Wallet, LedgerBatch}
use trading_bot.Accounting.Decimal.{is_positive, is_negative}
use trading_bot.Base.{
  sym, ◌∙◌, ℕ, ◌≡◌, true, false, none, some, arith, ltb, refl, Option-cases, String, inr, str_eq,
  inl, Bool-cases, is_empty, eq_refl, ◌==◌, List,
}
use trading_bot.Ledger.Error.{require_primary_account, default_account_id, record_not_found}
use trading_bot.Ledger.Command.{
  prepare, check_command, validate_fill, with_defaults, with_cost_model, with_time, FillCommand,
  default_to,
}
use trading_bot.Ledger.FillPostings.{IsPrepared}
use trading_bot.Ledger.FillLaws.{post_fill-Books}
use mathlib.Core.Path.{subst}
use trading_bot.Ledger.Store.{Result, ok, err, require_ready, find}

-- What the checks establish of the command that the transaction runs on.
pub record Checked (now : ℕ) (command c : FillCommand) : Type 0 where
  pub prepared : IsPrepared c
  pub currency : c.currency ≡ command.currency
  pub key : c.idempotency_key ≡ command.idempotency_key
  pub past : ltb now c.occurred_at ≡ false

pub primary_account :
    (account : String)
    → require_primary_account account ≡ none
    → str_eq (default_to default_account_id account) default_account_id ≡ true
unfolding require_primary_account
primary_account account h = elim (Bool-cases (is_empty account)) [
  | inl e ↦ rw e (eq_refl default_account_id)
  | inr e ↦ rw e (ground arith)
]

valid_amounts :
    (c : FillCommand)
    → validate_fill c ≡ none
    → (is_positive c.quantity ≡ true) × (is_negative c.fee ≡ false)
unfolding validate_fill
valid_amounts c h = ground arith

checked_time :
    (now : ℕ) (c d : FillCommand)
    → check_command now c ≡ ok d
    → (d ≡ with_time now c) × (ltb now (with_time now c).occurred_at ≡ false)
unfolding check_command
checked_time now c d h = ground arith

pub prepare-Checked :
    (now : ℕ) (command c : FillCommand) → prepare now command ≡ ok c → Checked now command c
unfolding prepare
prepare-Checked now command c h = elim (Option-cases (require_primary_account command.account_id)) [
  | inr (e, p) ↦ ground (arith, p)
  | inl p ↦ elim (Option-cases (validate_fill (with_cost_model command))) [
    | inr (e, q) ↦ ground (arith, p, q)
    | inl q ↦
        let checked =
          checked_time now (with_defaults (with_cost_model command)) c (rw (p, q, prepare) at h) in
        rw checked.0 (record {
          prepared = record {
            account =
                unfold with_time with_defaults with_cost_model in
                primary_account command.account_id p;
            quantity = unfold with_time with_defaults with_cost_model in (valid_amounts _ q).0;
            fee = unfold with_time with_defaults with_cost_model in (valid_amounts _ q).1;
          };
          currency = unfold with_time with_defaults with_cost_model in refl;
          key = unfold with_time with_defaults with_cost_model in refl;
          past = checked.1;
        })
  ]
]

pub load_fill_result_same :
    (batch : String) (db : Database)
    → Ensures (λ (r : FillResult) db'. db' ≡ db) (load_fill_result batch db)
unfolding load_fill_result
load_fill_result_same batch db =
    let P : FillResult → Database → Type 0 = λ r db'. db' ≡ db in
    Ensures-or_fail P (find (λ f. str_eq f.ledger_batch_id batch) db.fills) record_not_found _ db
      λ fill p.
        Ensures-or_fail P (find (λ o. o.id == fill.order_id) db.orders) record_not_found _ db
          λ order q.
            Ensures-or_fail P (find (λ p. p.id == fill.position_id) db.positions) record_not_found _
              db λ position q. Ensures-or_fail P db.wallet record_not_found _ db λ wallet q. refl

-- The wallet's currency is spelled as the command's.
abbrev Spelled : FillCommand → Database → Type 0
Spelled c db = (w : Wallet) → db.wallet ≡ some w → w.currency ≡ c.currency

-- The transaction, from what its writes do to tables that differ in their batches only.
pub fill_transaction_lem :
    (env : Environment) (c : FillCommand) (P Q : Database → Type 0) (db : Database)
    → ((db1 : Database) → P db1 → Q db1)
    → ((bs : List LedgerBatch) → P db → P (record db { batches = bs }))
    → ((db1 : Database) → P db1 → Ensures (λ r db'. Q db') (post_fill env c db1))
    → P db
    → Ensures (λ r db'. Q db') (fill_transaction env c db)
unfolding fill_transaction
fill_transaction_lem env c P Q db weaken batches writes p =
    let R : FillResult → Database → Type 0 = λ r db'. Q db' in
    Ensures-check R env.set_role _ db (
      Ensures-check R (env.lock_account c.account_id) _ db (
        Ensures-bind (BatchOnly db) R _ _
          (begin_batch-BatchOnly c.idempotency_key c.account_id _ _ db)
          λ already db1 kept.
            let p1 : P db1 = subst P (sym kept) (batches db1.batches p) in
            elim (Bool-cases already) [
              | inl h ↦ rw h (
                  Ensures-weaken (λ (r : FillResult) db2. db2 ≡ db1) R
                    (load_fill_result c.idempotency_key db1)
                    (λ r db2 e. subst Q (sym e) (weaken db1 p1))
                    (load_fill_result_same c.idempotency_key db1))
              | inr h ↦ rw h (
                  Ensures-bind _ R (require_ready c.account_id db1) _
                    (require_ready_same c.account_id db1)
                    λ t db2 e. writes db2 (subst P (sym e) p1))
            ]))

-- The whole operation, from its transaction.
pub apply_fill_lem :
    (env : Environment) (command : FillCommand) (Q : Database → Type 0) (db : Database)
    → Q db
    → ((c : FillCommand)
        → Checked env.now command c
        → Ensures (λ r db'. Q db') (fill_transaction env c db))
    → Q (apply_fill env command db).1
unfolding apply_fill
apply_fill_lem env command Q db q run = kept (prepare env.now command) refl
  where
    kept : (r : Result FillCommand) → prepare env.now command ≡ r → Q (apply_fill env command db).1
    kept (err e) p = rw (p, apply_fill) q
    kept (ok c) p =
        rw (p, apply_fill)
          (transaction-keeps Q (fill_transaction env c) db q
            (run c (prepare-Checked env.now command c p)))

-- A fill keeps the books. The books are kept when every exact projection (the wallet's balance,
-- the positions' amounts, cost bases, fees and realized profits) is the sum of the account's
-- postings behind it, no other currency has a balance, and the positions are the account's, have
-- different keys and symbols and exact columns, and hold nothing once closed. If they are kept and
-- the wallet's currency is spelled as in the command, then they are kept by the tables that
-- `ApplyFill` leaves, whether it succeeds, is a repetition, or fails at any check, statement or hook.
pub apply_fill-Books :
    (env : Environment) (command : FillCommand) (db : Database)
    → Books db
    → ((w : Wallet) → db.wallet ≡ some w → w.currency ≡ command.currency)
    → Books (apply_fill env command db).1
apply_fill-Books env command db books same = apply_fill_lem env command Books db books λ c checked.
    fill_transaction_lem env c (λ d. Books d × Spelled c d) Books db (λ d p. p.0)
      (λ bs p. (Books-batches db bs p.0, p.1))
      (λ d p. post_fill-Books env c d checked.prepared p.0 p.1)
      (books, λ w q. same w q ∙ sym checked.currency)
