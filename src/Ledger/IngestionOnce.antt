-- ===== src/Ledger/IngestionOnce.antt =====
-- `RecordBrokerOutcome` of internal/ledger/tradingcore_adapter.go acts once.
use mathlib.Core.Path.{subst}
use trading_bot.Ledger.Rows.{Database}
use trading_bot.TradingCore.Contracts.{OrderIntent, BrokerBatchOutcome}
use trading_bot.Ledger.Outcome.{OutcomePlan, validate_broker_outcome}
use trading_bot.Ledger.Ingestion.{
  OutcomeTables, record_broker_outcome, BrokerOutcomeIngestion, record_once, Digests, ingestion_of,
  ingest, account_of, record_plans, keys_of,
}
use trading_bot.Base.{
  ◌≡◌, refl, ap, Bool, true, false, none, some, List, [], ◌∷◌, ◌++◌, String, str_eq, eq_refl, inl,
  inr, Bool-cases, Option-cases, arith,
}
use trading_bot.Base.Statements.{Outcome-cases, ok, err, find}
use trading_bot.Ledger.Store.{Result}
use trading_bot.Ledger.Fill.{Environment}

-- The outcome is in the table, with this payload.
abbrev HasIngestion : String → String → OutcomeTables → Type 0
HasIngestion id payload tables =
    (i : BrokerOutcomeIngestion) × (find (λ x. str_eq x.id id) tables.ingestions ≡ some i)
    × (str_eq i.payload_hash payload ≡ true)

find-append_one :
    (id : String) (is : List BrokerOutcomeIngestion) (row : BrokerOutcomeIngestion)
    → find (λ x. str_eq x.id id) is ≡ none
    → str_eq row.id id ≡ true
    → find (λ x. str_eq x.id id) (is ++ row ∷ []) ≡ some row
find-append_one id [] row h e = rw e refl
find-append_one id (i ∷ is) row h e = ground (arith, find-append_one id is row)

abbrev Done : String → String → Result (Unit {0}) × OutcomeTables → Type 0
Done id payload (ok u, tables) = HasIngestion id payload tables
Done id payload (err e, tables) = Unit

module _ (env : Environment) (identity payload : String) (plans : List OutcomePlan)
    (tables : OutcomeTables) where
  record_once-Done : Done identity payload (record_once env identity payload plans tables)
  unfolding record_once
  record_once-Done = elim (Option-cases (ingestion_of env identity tables.ingestions)) [
    | inl h ↦ rw (h, record_once, Done) (ingested h (record_plans env plans tables.ledger))
    | inr (i, h) ↦ elim (Bool-cases (str_eq i.payload_hash payload)) [
      | inl q ↦ rw (h, q, record_once, Done) (i, h, q)
      | inr q ↦ rw (h, q, record_once, Done) tt
    ]
  ]
    where
      ingested :
          ingestion_of env identity tables.ingestions ≡ none
          → (x : Result (Unit {0} × Database))
          → Done identity payload (
              ingest env
                (record {
                  id = identity;
                  account_id = account_of env plans;
                  payload_hash = payload;
                  created_at = env.now;
                })
                tables
                x)
      ingested h (ok (u, d)) =
          unfold ingest in
          (_, find-append_one identity tables.ingestions _ h (eq_refl identity), eq_refl payload)
      ingested h (err e) = unfold ingest in tt

  record_once_again :
      HasIngestion identity payload tables
      → record_once env identity payload plans tables ≡ (ok tt, tables)
  unfolding record_once
  record_once_again (i, h, q) = rw (h, q, record_once) refl

abbrev is_done : Result (Unit {0}) × OutcomeTables → Bool
is_done (ok u, t) = true
is_done (err e, t) = false

not_done : false ≡ true → ⊥
not_done h = ground arith

-- An outcome that was recorded once is not recorded again: after `RecordBrokerOutcome` returned no
-- error, another call with the same intents and the same outcome, at any time, returns no error and
-- changes no table.
pub record_broker_outcome-once :
    (env later : Environment) (digests : Digests) (approved : List OrderIntent)
    (outcome : BrokerBatchOutcome) (tables after : OutcomeTables)
    → record_broker_outcome env digests approved outcome tables ≡ (ok tt, after)
    → record_broker_outcome later digests approved outcome after ≡ (ok tt, after)
unfolding record_broker_outcome
record_broker_outcome-once env later digests approved outcome tables after h =
    elim (Outcome-cases (validate_broker_outcome approved outcome)) [
      | inr (e, g) ↦ absurd (not_done (ap is_done (rw (g, record_broker_outcome) at h)))
      | inl (plans, g) ↦
          rw (g, record_broker_outcome)
            (record_once_again later _ _ plans after (
              subst (Done _ _) (rw (g, record_broker_outcome) at h) (
                record_once-Done env (digests.identity (keys_of env approved))
                  (digests.payload plans outcome) plans tables)))
    ]
