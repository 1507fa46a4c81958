-- ===== src/Ledger/IngestionLaws.antt =====
-- `RecordBrokerOutcome` of internal/ledger/tradingcore_adapter.go keeps what `ApplyFill`
-- keeps.
use mathlib.Core.Path.{subst}
use trading_bot.Ledger.PlanLaws.{Every, IsPlanned, validate-IsPlanned}
use trading_bot.TradingCore.Contracts.{OrderIntent, BrokerBatchOutcome}
use trading_bot.Ledger.Outcome.{OutcomePlan, intent_of, validate_broker_outcome}
use trading_bot.Ledger.Ingestion.{
  record_once, apply_child, Digests, record_plans, record_plan, record_broker_outcome,
  apply_commands, OutcomeTables, new_outcome_order, BrokerOutcomeIngestion, ingest, ingestion_of,
}
use trading_bot.Ledger.Order.{upsert_filled_order}
use trading_bot.Ledger.Solvent.{apply_fill-Solvent, Solvent}
use trading_bot.Ledger.Position.{apply_position}
use trading_bot.Ledger.Books.{Books}
use trading_bot.Ledger.ApplyFill.{apply_fill-Books, apply_fill_lem, fill_transaction_lem}
use trading_bot.Ledger.Rows.{Database, Order, Wallet}
use trading_bot.Ledger.Command.{FillCommand}
use trading_bot.Base.{
  ℕ, suc, ◌≡◌, ◌⊎◌, sym, ap, ◌∙◌, Bool, true, false, Option, none, some, List, [], ◌∷◌, ◌++◌,
  String, if◌then◌else◌, str_eq, eq_iff, inl, inr, Bool-cases, Option-cases, arith, all,
  some-injective,
}
use trading_bot.Base.Ensures.{Ensures, Ensures-bind, Ensures-check, Ensures-then}
use trading_bot.Base.Statements.{Outcome-cases, ok, err}
use trading_bot.Ledger.Store.{Result, create_order}
use trading_bot.Ledger.Fill.{
  charge_wallet, Environment, FillResult, apply_fill, post_fill, gross_of,
}
use trading_bot.Ledger.FillLaws.{
  Charged, charge_wallet-Charged, OrdersOnly, upsert_filled_order-OrdersOnly,
}

-- The wallet is kept in this currency.
abbrev pub Uses : String → Database → Type 0
Uses cur db = (w : Wallet) → db.wallet ≡ some w → w.currency ≡ cur

post_fill-Uses :
    (env : Environment) (c : FillCommand) (cur : String) (db : Database)
    → Uses cur db
    → Ensures (λ r db'. Uses cur db') (post_fill env c db)
unfolding post_fill
post_fill-Uses env c cur db uses =
    let Q : FillResult → Database → Type 0 = λ r db'. Uses cur db' in
    Ensures-bind (Charged c db) Q (charge_wallet c db) _ (charge_wallet-Charged c db)
      λ r db1 charged.
        let same : r.0.currency ≡ cur =
          uses r.0 (ap (λ (d : Database). d.wallet) (sym charged.same) ∙ charged.wallet) in
        Ensures-then Q (apply_position c (gross_of c) db1) _ λ ch db2 moved.
          Ensures-check Q (env.after_write "projection") _ _ (
            Ensures-bind
              (OrdersOnly (record db2 { wallet = some (record r.0 { balance_exact = some r.1 }) }))
              Q
              (upsert_filled_order c (gross_of c)
                (record db2 { wallet = some (record r.0 { balance_exact = some r.1 }) }))
              _ (upsert_filled_order-OrdersOnly c (gross_of c) _)
              λ o db4 kept. Ensures-check Q (env.after_write "order") _ _ (
                Ensures-check Q (env.after_write "fill") _ _ (
                  Ensures-check Q (env.after_write "ledger") _ _ (λ w found.
                    ap currency_of (sym found ∙ ap (λ (d : Database). d.wallet) kept) ∙ same))))
  where
    currency_of : Option Wallet → String
    currency_of none = cur
    currency_of (some w) = w.currency

apply_fill-Uses :
    (env : Environment) (command : FillCommand) (cur : String) (db : Database)
    → Uses cur db
    → Uses cur (apply_fill env command db).1
apply_fill-Uses env command cur db uses = apply_fill_lem env command (Uses cur) db uses λ c checked.
    fill_transaction_lem env c (Uses cur) (Uses cur) db (λ d p. p) (λ bs p. p)
      (λ d p. post_fill-Uses env c cur d p) uses

-- The books are kept in this currency, and nothing in them is negative.
pub record IsSound (cur : String) (db : Database) : Type 0 where
  pub books : Books db
  pub solvent : Solvent db
  pub uses : Uses cur db

apply_fill-IsSound :
    (env : Environment) (command : FillCommand) (cur : String) (db : Database)
    → command.currency ≡ cur
    → IsSound cur db
    → IsSound cur (apply_fill env command db).1
apply_fill-IsSound env command cur db same sound = record {
  books = apply_fill-Books env command db sound.books (λ w q. sound.uses w q ∙ sym same);
  solvent = apply_fill-Solvent env command db sound.books sound.solvent;
  uses = apply_fill-Uses env command cur db sound.uses;
}

IsSound-orders :
    (cur : String) (db : Database) (os : List Order) (n : ℕ)
    → IsSound cur db
    → IsSound cur (record db { orders = os; next_order_id = n })
IsSound-orders cur db os n s = record {
  books = record {
    cash = s.books.cash;
    amounts = s.books.amounts;
    bases = s.books.bases;
    fees = s.books.fees;
    profits = s.books.profits;
    settled = s.books.settled;
    keyed = s.books.keyed;
  };
  solvent = record { cash = s.solvent.cash; positions = s.solvent.positions };
  uses = s.uses;
}

module _ (env : Environment) (cur : String) where
  apply_child-IsSound :
      (c : FillCommand) (db : Database)
      → c.currency ≡ cur
      → IsSound cur db
      → Ensures (λ r db'. IsSound cur db') (apply_child env c db)
  unfolding apply_child
  apply_child-IsSound c db same sound =
      answered (apply_fill env c db).0 (apply_fill env c db).1
        (apply_fill-IsSound env c cur db same sound)
    where
      answered :
          (x : Result FillResult) (db' : Database)
          → IsSound cur db'
          → Ensures
              (λ (r : FillResult) d. IsSound cur d)
              (elim x [ err e ↦ err e | ok r ↦ ok (r, db') ])
      answered (ok r) db' s = s
      answered (err e) db' s = tt

  apply_commands-IsSound :
      (id : ℕ) (cs : List FillCommand) (db : Database)
      → all (λ (c : FillCommand). str_eq c.currency cur) cs ≡ true
      → IsSound cur db
      → Ensures (λ u db'. IsSound cur db') (apply_commands env id cs db)
  unfolding apply_commands
  apply_commands-IsSound id [] db same sound = sound
  apply_commands-IsSound id (c ∷ cs) db same sound =
      Ensures-bind (λ r d. IsSound cur d) (λ u d. IsSound cur d)
        (apply_child env (record c { existing_order_id = id }) db) (λ r. apply_commands env id cs)
        (apply_child-IsSound (record c { existing_order_id = id }) db
          ((eq_iff c.currency cur).0 (ground arith)) sound)
        (λ r d s. apply_commands-IsSound id cs d (ground arith) s)

  record_plan-IsSound :
      (item : OutcomePlan) (db : Database)
      → all (λ (c : FillCommand). str_eq c.currency cur) item.commands ≡ true
      → IsSound cur db
      → Ensures (λ u db'. IsSound cur db') (record_plan env item db)
  unfolding record_plan create_order
  record_plan-IsSound item db same sound =
      let created : IsSound cur (record db {
        orders = db.orders ++ (record (new_outcome_order item) { id = db.next_order_id }) ∷ [];
        next_order_id = suc db.next_order_id;
      }) =
        IsSound-orders cur db _ _ sound in
      Ensures-bind (λ u d. IsSound cur d) (λ u d. IsSound cur d)
        (apply_commands env db.next_order_id item.commands _) _
        (apply_commands-IsSound db.next_order_id item.commands _ same created)
        (λ u d s. IsSound-orders cur d _ d.next_order_id s)

  -- The fills of every plan are in the currency.
  abbrev Spelled : OutcomePlan → Type 0
  Spelled p = all (λ (c : FillCommand). str_eq c.currency cur) p.commands ≡ true

  record_plans-IsSound :
      (plans : List OutcomePlan) (db : Database)
      → Every Spelled plans
      → IsSound cur db
      → Ensures (λ u db'. IsSound cur db') (record_plans env plans db)
  unfolding record_plans
  record_plans-IsSound [] db same sound = sound
  record_plans-IsSound (p ∷ ps) db same sound =
      Ensures-bind (λ u d. IsSound cur d) (λ u d. IsSound cur d) (record_plan env p db)
        (λ u. record_plans env ps) (record_plan-IsSound p db same.0 sound)
        (λ u d s. record_plans-IsSound ps d same.1 s)

  record_once-IsSound :
      (identity payload : String) (plans : List OutcomePlan) (tables : OutcomeTables)
      → Every Spelled plans
      → IsSound cur tables.ledger
      → IsSound cur (record_once env identity payload plans tables).1.ledger
  unfolding record_once
  record_once-IsSound identity payload plans tables same sound =
      elim (Option-cases (ingestion_of env identity tables.ingestions)) [
        | inl h ↦
            rw (h, record_once)
              (ingested _ (record_plans env plans tables.ledger)
                (record_plans-IsSound plans tables.ledger same sound))
        | inr (i, h) ↦ elim (Bool-cases (str_eq i.payload_hash payload)) [
          | inl q ↦ rw (h, q, record_once) sound
          | inr q ↦ rw (h, q, record_once) sound
        ]
      ]
    where
      ingested :
          (row : BrokerOutcomeIngestion) (x : Result (Unit {0} × Database))
          → Ensures (λ u d. IsSound cur d) x
          → IsSound cur (ingest env row tables x).1.ledger
      ingested row (ok (u, d)) s = unfold ingest in s
      ingested row (err e) s = unfold ingest in sound

-- The quote asset of an approved intent.
quoted :
    (cur : String) (id : String) (is : List OrderIntent) (i : OrderIntent)
    → all (λ (j : OrderIntent). str_eq j.instrument.quote_asset cur) is ≡ true
    → intent_of id is ≡ some i
    → i.instrument.quote_asset ≡ cur
quoted cur id [] i h found = ground arith
quoted cur id (j ∷ js) i h found = elim (chosen (intent_of id js) (str_eq j.id id) found) [
  | inl p ↦ quoted cur id js i (ground arith) p
  | inr e ↦
      subst (λ (k : OrderIntent). k.instrument.quote_asset ≡ cur) e
        ((eq_iff j.instrument.quote_asset cur).0 (ground arith))
]
  where
    chosen :
        (o : Option OrderIntent) (b : Bool)
        → (elim o [ some k ↦ some k | none ↦ if b then some j else none ]) ≡ some i
        → (o ≡ some i) ⊎ (j ≡ i)
    chosen (some k) b e = inl e
    chosen none true e = inr (some-injective j i e)
    chosen none false e = ground arith

-- A broker's outcome keeps the books: if the books are kept in a currency, nothing in them is
-- negative and the approved intents are quoted in that currency, then all this holds after
-- `RecordBrokerOutcome`, whether it records the outcome, knows it already, refuses it or fails.
pub record_broker_outcome-IsSound :
    (env : Environment) (digests : Digests) (cur : String) (approved : List OrderIntent)
    (outcome : BrokerBatchOutcome) (tables : OutcomeTables)
    → all (λ (j : OrderIntent). str_eq j.instrument.quote_asset cur) approved ≡ true
    → IsSound cur tables.ledger
    → IsSound cur (record_broker_outcome env digests approved outcome tables).1.ledger
unfolding record_broker_outcome
record_broker_outcome-IsSound env digests cur approved outcome tables quotes sound =
    elim (Outcome-cases (validate_broker_outcome approved outcome)) [
      | inr (e, h) ↦ rw (h, record_broker_outcome) sound
      | inl (plans, h) ↦
          rw (h, record_broker_outcome)
            (record_once-IsSound env cur _ _ plans tables
              (spelled plans (validate-IsPlanned approved outcome plans h)) sound)
    ]
  where
    spelled :
        (plans : List OutcomePlan)
        → Every (IsPlanned approved) plans
        → Every (Spelled env cur) plans
    spelled [] h = tt
    spelled (p ∷ ps) h = (
      subst (λ (q : String). all (λ (c : FillCommand). str_eq c.currency q) p.commands ≡ true)
          (quoted cur p.accepted.order_id approved p.intent quotes (h.0.intended)) (h.0.spelled),
      spelled ps h.1,
    )
