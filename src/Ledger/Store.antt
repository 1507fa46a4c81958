-- ===== src/Ledger/Store.antt =====
-- Statements inside a database transaction, and the transaction itself: an error rolls every
-- statement back.
use trading_bot.Base.{
  ℕ, suc, Bool, true, false, Option, none, some, List, [], ◌∷◌, ◌++◌, String, if◌then◌else◌, ◌&&◌,
  ◌==◌, str_eq,
}
use trading_bot.Base.Statements.{Outcome, StatementOn}
use trading_bot.Ledger.Error.{
  Failure, normalize_persistence_error, err_unreconciled_legacy_state, err_idempotency_conflict,
}
use trading_bot.Ledger.Rows.{Position, Order, Database}
pub use trading_bot.Base.Statements.{
  ok, err, continue, ◌>>=◌, ◌>>◌, pure, fail, or_fail, lift, get, check, guard, modify, find,
}

abbrev pub Result {ℓ} : Type ℓ → Type ℓ
Result A = Outcome Failure A

abbrev pub Statement : Type 0 → Type 0
Statement A = StatementOn Database Failure A

-- `DB.Transaction`, with the error as `normalizePersistenceError` reports it.
abbrev pub commit : {A : Type 0} → Database → Result (A × Database) → Result A × Database
commit db (ok (a, db')) = (ok a, db')
commit db (err e) = (err (normalize_persistence_error e), db)

unfoldable pub transaction : {A : Type 0} → Statement A → Database → Result A × Database
transaction m db = commit db (m db)

abbrev pub find_position : String → String → List Position → Option Position
find_position account symbol = find (λ p. str_eq p.account_id account && str_eq p.symbol symbol)

-- `UPDATE ... WHERE id = ...`
abbrev pub replace_position : Position → List Position → List Position
replace_position p [] = []
replace_position p (q ∷ qs) = (if q.id == p.id then p else q) ∷ replace_position p qs

abbrev pub replace_order : Order → List Order → List Order
replace_order o [] = []
replace_order o (q ∷ qs) = (if q.id == o.id then o else q) ∷ replace_order o qs

-- `tx.Create`: the table's sequence gives the id.
unfoldable pub create_position : Position → Statement Position
create_position p db =
    let q = record p { id = db.next_position_id } in
    ok (
      q,
      record db { positions = db.positions ++ q ∷ []; next_position_id = suc db.next_position_id },
    )

-- `tx.Save`
unfoldable pub save_position : Position → Statement Position
save_position p db = ok (p, record db { positions = replace_position p db.positions })

unfoldable pub create_order : Order → Statement Order
create_order o db =
    let q = record o { id = db.next_order_id } in
    ok (q, record db { orders = db.orders ++ q ∷ []; next_order_id = suc db.next_order_id })

unfoldable pub save_order : Order → Statement Order
save_order o db = ok (o, record db { orders = replace_order o db.orders })

-- `requireReady`
unfoldable pub require_ready : String → Statement (Unit {0})
require_ready account db = elim (find (λ s. str_eq s.account_id account) db.migrations) [
  | none ↦ err err_unreconciled_legacy_state
  | some state ↦
      if str_eq state.status "ready" then ok (tt, db) else err err_unreconciled_legacy_state
]

-- `beginBatch`: true if the batch was applied before.
unfoldable pub begin_batch : String → String → String → ℕ → Statement Bool
begin_batch id account payload_hash at db = elim (find (λ b. str_eq b.id id) db.batches) [
  | some existing ↦
      if str_eq existing.payload_hash payload_hash
      then ok (true, db)
      else err err_idempotency_conflict
  | none ↦ ok (
    false,
    record db {
      batches =
          db.batches
          ++ (record {
            id = id;
            account_id = account;
            payload_hash = payload_hash;
            created_at = at;
          })
            ∷ [];
    },
  )
]
