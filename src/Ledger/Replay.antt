-- ===== src/Ledger/Replay.antt =====
-- A batch is applied once (`beginBatch` and `ApplyFill` of internal/ledger/service.go).
use trading_bot.Ledger.Transaction.{
  BatchOnly, begin_batch-BatchOnly, Books-batches, require_ready_same,
}
use trading_bot.Ledger.Order.{upsert_filled_order}
use trading_bot.Ledger.Position.{apply_position}
use trading_bot.Ledger.PositionLaws.{Moved, apply_position-Moved}
use trading_bot.Ledger.FillLaws.{
  Charged, charge_wallet-Charged, OrdersOnly, upsert_filled_order-OrdersOnly,
}
use trading_bot.Ledger.Books.{Books}
use trading_bot.Ledger.FillPostings.{IsPrepared}
use trading_bot.Ledger.ApplyFill.{load_fill_result_same, apply_fill_lem, prepare-Checked}
use trading_bot.Ledger.Command.{FillCommand, prepare}
use trading_bot.Base.Ensures.{Ensures, Ensures-check, Ensures-bind, Ensures-weaken, Ensures-and}
use trading_bot.Ledger.Fill.{
  fill_transaction, post_fill, Environment, apply_fill, FillResult, load_fill_result, charge_wallet,
  gross_of,
}
use trading_bot.Ledger.Rows.{Database, LedgerBatch}
use trading_bot.Base.{
  ℕ, ◌≡◌, refl, sym, ap, ◌∙◌, Bool, true, false, Option, none, some, List, [], ◌∷◌, ◌++◌, String,
  str_eq, eq_refl, inl, inr, Bool-cases, Option-cases, arith,
}
use mathlib.Core.Path.{subst}
use trading_bot.Ledger.Store.{
  Result, ok, err, begin_batch, find, transaction, Statement, commit, require_ready,
}

abbrev is_found : Option LedgerBatch → Bool
is_found none = false
is_found (some b) = true

-- A batch with this key was recorded.
abbrev pub Recorded : String → Database → Type 0
Recorded key db = is_found (find (λ b. str_eq b.id key) db.batches) ≡ true

find-last :
    (b : LedgerBatch) (bs : List LedgerBatch)
    → is_found (find (λ x. str_eq x.id b.id) (bs ++ b ∷ [])) ≡ true
find-last b [] = rw (eq_refl b.id) refl
find-last b (x ∷ xs) = ground (arith, find-last b xs)

begin_batch-Recorded :
    (id account payload_hash : String) (at : ℕ) (db : Database)
    → Ensures (λ already db'. Recorded id db') (begin_batch id account payload_hash at db)
unfolding begin_batch
begin_batch-Recorded id account payload_hash at db =
    elim (Option-cases (find (λ b. str_eq b.id id) db.batches)) [
      | inl p ↦
          rw (p, Ensures, begin_batch)
            (find-last
              (record {
                id = id;
                account_id = account;
                payload_hash = payload_hash;
                created_at = at;
              })
              db.batches)
      | inr (b, p) ↦ elim (Bool-cases (str_eq b.payload_hash payload_hash)) [
        | inl q ↦ rw (p, q, Ensures, begin_batch) (rw p refl)
        | inr q ↦ rw (p, q, Ensures, begin_batch) tt
      ]
    ]

-- A recorded batch is not applied again.
begin_batch_again :
    (id account payload_hash : String) (at : ℕ) (db : Database)
    → Recorded id db
    → Ensures
        (λ already db'. (already ≡ true) × (db' ≡ db))
        (begin_batch id account payload_hash at db)
unfolding begin_batch
begin_batch_again id account payload_hash at db h =
    elim (Option-cases (find (λ b. str_eq b.id id) db.batches)) [
      | inl p ↦ ground (arith, p)
      | inr (b, p) ↦ elim (Bool-cases (str_eq b.payload_hash payload_hash)) [
        | inl q ↦ rw (p, q, Ensures, begin_batch) (refl, refl)
        | inr q ↦ rw (p, q, Ensures, begin_batch) tt
      ]
    ]

fill_transaction_again :
    (env : Environment) (c : FillCommand) (db : Database)
    → Recorded c.idempotency_key db
    → Ensures (λ (r : FillResult) db'. db' ≡ db) (fill_transaction env c db)
unfolding fill_transaction
fill_transaction_again env c db h =
    let R : FillResult → Database → Type 0 = λ r db'. db' ≡ db in
    Ensures-check R env.set_role _ db (
      Ensures-check R (env.lock_account c.account_id) _ db (
        Ensures-bind (λ already db'. (already ≡ true) × (db' ≡ db)) R _ _
          (begin_batch_again c.idempotency_key c.account_id _ _ db h)
          λ already db1 again. rw again.0 (
            Ensures-weaken (λ (r : FillResult) db2. db2 ≡ db1) R
              (load_fill_result c.idempotency_key db1) (λ r db2 e. e ∙ again.1)
              (load_fill_result_same c.idempotency_key db1))))

-- A command whose key is recorded changes nothing.
apply_fill_again :
    (env : Environment) (command : FillCommand) (db : Database)
    → Recorded command.idempotency_key db
    → (apply_fill env command db).1 ≡ db
apply_fill_again env command db h =
    apply_fill_lem env command (λ db'. db' ≡ db) db refl
      λ c checked.
        fill_transaction_again env c db (subst (λ (k : String). Recorded k db) (sym checked.key) h)

post_fill-Recorded :
    (env : Environment) (c : FillCommand) (key : String) (db : Database)
    → IsPrepared c
    → Books db
    → Recorded key db
    → Ensures (λ r db'. Recorded key db') (post_fill env c db)
unfolding post_fill
post_fill-Recorded env c key db v books recorded =
    let Q : FillResult → Database → Type 0 = λ r db'. Recorded key db' in
    Ensures-bind (Charged c db) Q (charge_wallet c db) _ (charge_wallet-Charged c db)
      λ r db1 charged.
        let books1 : Books db1 = subst Books (sym charged.same) books in
        let recorded1 : Recorded key db1 = subst (Recorded key) (sym charged.same) recorded in
        Ensures-bind (Moved c db1) Q (apply_position c (gross_of c) db1) _
          (apply_position-Moved c (gross_of c) db1 v.account v.quantity books1.keyed
            (books1.settled c.symbol))
          λ ch db2 moved. Ensures-check Q (env.after_write "projection") _ _ (
            Ensures-bind
              (OrdersOnly (record db2 { wallet = some (record r.0 { balance_exact = some r.1 }) }))
              Q
              (upsert_filled_order c (gross_of c)
                (record db2 { wallet = some (record r.0 { balance_exact = some r.1 }) }))
              _ (upsert_filled_order-OrdersOnly c (gross_of c) _)
              λ o db4 kept. Ensures-check Q (env.after_write "order") _ _ (
                Ensures-check Q (env.after_write "fill") _ _ (
                  Ensures-check Q (env.after_write "ledger") _ _ (
                    rw
                      (
                        ap (λ (d : Database). d.batches) kept,
                        ap (λ (d : Database). d.batches) moved.rest,
                      )
                      recorded1))))

fill_transaction-Recorded :
    (env : Environment) (c : FillCommand) (db : Database)
    → IsPrepared c
    → Books db
    → Ensures (λ r db'. Recorded c.idempotency_key db') (fill_transaction env c db)
unfolding fill_transaction
fill_transaction-Recorded env c db v books =
    let R : FillResult → Database → Type 0 = λ r db'. Recorded c.idempotency_key db' in
    Ensures-check R env.set_role _ db (
      Ensures-check R (env.lock_account c.account_id) _ db (
        Ensures-bind (λ already db'. BatchOnly db already db' × Recorded c.idempotency_key db') R _
          _
          (Ensures-and (BatchOnly db) (λ already db'. Recorded c.idempotency_key db') _
            (begin_batch-BatchOnly c.idempotency_key c.account_id _ _ db)
            (begin_batch-Recorded c.idempotency_key c.account_id _ _ db))
          λ already db1 p.
            let books1 : Books db1 = subst Books (sym p.0) (Books-batches db db1.batches books) in
            elim (Bool-cases already) [
              | inl h ↦ rw h (
                  Ensures-weaken (λ (r : FillResult) db2. db2 ≡ db1) R
                    (load_fill_result c.idempotency_key db1)
                    (λ r db2 e. subst (Recorded c.idempotency_key) (sym e) p.1)
                    (load_fill_result_same c.idempotency_key db1))
              | inr h ↦ rw h (
                  Ensures-bind _ R (require_ready c.account_id db1) _
                    (require_ready_same c.account_id db1)
                    λ t db2 e.
                      post_fill-Recorded env c c.idempotency_key db2 v (subst Books (sym e) books1)
                        (subst (Recorded c.idempotency_key) (sym e) p.1))
            ]))

-- What holds of a result that was returned.
abbrev IfDone : (Database → Type 0) → Result FillResult × Database → Type 0
IfDone P (ok r, db) = P db
IfDone P (err e, db) = Unit

transaction-IfDone :
    (P : Database → Type 0) (m : Statement FillResult) (db : Database)
    → Ensures (λ r db'. P db') (m db)
    → IfDone P (transaction m db)
unfolding transaction
transaction-IfDone P m db e = committed (m db) e
  where
    committed :
        (r : Result (FillResult × Database)) → Ensures (λ r db'. P db') r → IfDone P (commit db r)
    committed (ok (a, db')) e = e
    committed (err f) e = tt

apply_fill-Recorded :
    (env : Environment) (command : FillCommand) (db : Database)
    → Books db
    → IfDone (Recorded command.idempotency_key) (apply_fill env command db)
unfolding apply_fill
apply_fill-Recorded env command db books = done (prepare env.now command) refl
  where
    done :
        (r : Result FillCommand)
        → prepare env.now command ≡ r
        → IfDone (Recorded command.idempotency_key) (apply_fill env command db)
    done (err e) p = rw (p, apply_fill) tt
    done (ok c) p =
        let checked = prepare-Checked env.now command c p in
        rw (p, apply_fill)
          (transaction-IfDone (Recorded command.idempotency_key) (fill_transaction env c) db (
            subst (λ (k : String). Ensures (λ r db'. Recorded k db') (fill_transaction env c db))
              checked.key (fill_transaction-Recorded env c db checked.prepared books)))

-- A fill is applied once: if the books are kept and `ApplyFill` returned a result, then applying
-- any command with the same idempotency key afterwards, at any time and in any environment,
-- changes no table, whether it is answered as a repetition, refused as a conflict or fails.
pub apply_fill-once :
    (env later : Environment) (command again : FillCommand) (db db' : Database) (r : FillResult)
    → Books db
    → apply_fill env command db ≡ (ok r, db')
    → again.idempotency_key ≡ command.idempotency_key
    → (apply_fill later again db').1 ≡ db'
apply_fill-once env later command again db db' r books done same =
    apply_fill_again later again db' (
      subst (λ (k : String). Recorded k db') (sym same)
        (subst (IfDone (Recorded command.idempotency_key)) done
          (apply_fill-Recorded env command db books)))
