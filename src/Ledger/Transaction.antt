-- ===== src/Ledger/Transaction.antt =====
-- What opening a transaction's batch and ending the transaction do to the tables
-- (internal/ledger/service.go).
use trading_bot.Base.Ensures.{Ensures}
use trading_bot.Ledger.Books.{Books}
use trading_bot.Ledger.Rows.{Database, LedgerBatch}
use trading_bot.Base.{ℕ, ◌≡◌, Bool, refl, Option-cases, String, inr, str_eq, inl, Bool-cases, List}
use trading_bot.Ledger.Store.{
  Result, ok, err, require_ready, begin_batch, find, transaction, Statement, commit,
}

-- The first statement of a new batch writes its row only.
abbrev pub BatchOnly : Database → Bool → Database → Type 0
BatchOnly db already db' = db' ≡ record db { batches = db'.batches }

pub begin_batch-BatchOnly :
    (id account payload_hash : String) (at : ℕ) (db : Database)
    → Ensures (BatchOnly db) (begin_batch id account payload_hash at db)
unfolding begin_batch
begin_batch-BatchOnly id account payload_hash at db =
    elim (Option-cases (find (λ b. str_eq b.id id) db.batches)) [
      | inl p ↦ rw (p, Ensures, begin_batch) refl
      | inr (b, p) ↦ elim (Bool-cases (str_eq b.payload_hash payload_hash)) [
        | inl q ↦ rw (p, q, Ensures, begin_batch) refl
        | inr q ↦ rw (p, q, Ensures, begin_batch) tt
      ]
    ]

pub require_ready_same :
    (account : String) (db : Database)
    → Ensures (λ (r : Unit {0}) db'. db' ≡ db) (require_ready account db)
unfolding require_ready
require_ready_same account db =
    elim (Option-cases (find (λ s. str_eq s.account_id account) db.migrations)) [
      | inl p ↦ rw (p, Ensures, require_ready) tt
      | inr (state, p) ↦ elim (Bool-cases (str_eq state.status "ready")) [
        | inl q ↦ rw (p, q, Ensures, require_ready) refl
        | inr q ↦ rw (p, q, Ensures, require_ready) tt
      ]
    ]

pub Books-batches :
    (db : Database) (bs : List LedgerBatch) → Books db → Books (record db { batches = bs })
Books-batches db bs books = record {
  cash = books.cash;
  amounts = books.amounts;
  bases = books.bases;
  fees = books.fees;
  profits = books.profits;
  settled = books.settled;
  keyed = books.keyed;
}

-- What a transaction leaves, from what its statement ensures.
module _ {A : Type 0} where
  pub transaction-keeps :
      (P : Database → Type 0) (m : Statement A) (db : Database)
      → P db
      → Ensures (λ a db'. P db') (m db)
      → P (transaction m db).1
  unfolding transaction
  transaction-keeps P m db h e = committed (m db) e
    where
      committed : (r : Result (A × Database)) → Ensures (λ a db'. P db') r → P (commit db r).1
      committed (ok (a, db')) e = e
      committed (err f) e = h
