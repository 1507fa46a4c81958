-- ===== src/Lib.antt =====
-- A verification library for the trading bot: the exact ledger, its decimal arithmetic, the
-- websocket hub, the flags that grant authority and the parity of two engines, the exit, rollout
-- and orchestration decisions and the risk engine of the shared trading core, and the governance of
-- rollouts with the evidence it reads.
--
-- The program keeps one paper or exchange account. Every fill, deposit or withdrawal goes through
-- the ledger service, which appends immutable events and updates exact projections (a wallet, the
-- positions, the orders) in one database transaction; the reconciliation compares the two again.
-- All amounts are decimals of the accounting package. The cutover flags say which engine may use
-- capital, the trading core decides exits and model authority, and the hub tells browsers.
--
-- The files:
-- - Base: native naturals, signed integers of any size (big.Int), lists, texts, the tests on them.
--   Float is the values of float64 in the smallest step, with their comparisons, Entries the maps
--   as lists of entries, Rational (with its order) big.Rat as fractions that are not reduced,
--   Sorting sort.SliceStable with its proof, Statements the monad of results and of database
--   statements (an error rolls back), Ensures the rules for the postcondition of a statement.
-- - Accounting: internal/accounting/decimal.go. Decimal is the arithmetic (`Add`, `Sub`, `Mul`,
--   `Div`, `MulDiv`, `roundQuotient`), Text is `Parse` and `String`; Rounding, Digits and RoundTrip
--   are the proofs. A Decimal is an optional integer of 10^-18 units; a nil one reads as 0. The
--   rounds of `print` are one more than the number, which is enough since each divides by ten; the
--   round trip shows it.
-- - Ledger: internal/ledger. Rows are the tables of internal/database/models.go; Store is the
--   ledger's statements; Command, Position, Order and Fill are `ApplyFill` of service.go with
--   `validateFill`, `applyPosition`, `upsertFilledOrder`, `loadFillResult`, `beginBatch` and
--   `requireReady`; Adjustment and Reversal are adjustment.go; Correction is correction.go;
--   Reconcile is the differences of `reconcileCurrent` in reconcile.go; PaperFill is
--   `CostedPaperFill` and `CheckReady`; Error is errors.go. Outcome is `validateBrokerOutcome` and
--   Ingestion is `RecordBrokerOutcome` of tradingcore_adapter.go. Books is the invariant.
--   Transaction, FillPostings, Positions, PositionLaws, FillLaws, ApplyFill, CashEvents,
--   AdjustmentLaws, Solvent, Replay, Totals, TallySums, Agreement, OrderLaws, ReversalLaws,
--   ReconcileLaws, PlanLaws, IngestionLaws and IngestionOnce are the proofs.
-- - Websocket: internal/websocket/hub.go and the answers of client.go. Hub is the state and its
--   operations; HubLaws, Broadcast and Dropped are the proofs. A hub is its clients, its rooms and
--   the channel of each client, of 256 messages.
-- - Cutover: internal/cutover/flags.go. Flags is the parsing and validation, Active the active
--   state of the process, FlagLaws the proofs. Parity and ParityRun are parity.go, with the proofs
--   ParityLaws, ParityVerified and ParityAccepted.
-- - TradingCore: internal/tradingcore/exits.go (Exits), rollout.go (Rollout), contracts.go
--   (Contracts) and `Run` of orchestrator.go (Orchestrator) with the proofs RunLaws. Orders are the
--   intents and batches of contracts.go, Exact is exact.go, Portfolio the policy and the snapshot,
--   Risk, RiskRound and RiskEngine are risk.go; OrderLaws, PolicyLaws, RiskCosts, RiskCaps,
--   RiskSizing, RiskGranted, RiskBounds, RiskLots, RiskTally, RiskRounds,
--   RiskVerdict and RiskAnswers are their proofs.
-- - Validation: internal/validation. Policy is the envelope of a manifest and the limits it must
--   keep, Experiment the manifests, evidence and repository that governance reads.
-- - Governance: internal/governance/service.go. Rows and Store are its tables and statements,
--   Environment the shared checks and the digests, Approve, Transition, Rollback and Monitoring its
--   operations (the last is `RecordMonitoringEvidence` and `VerifyDeployment`); Steps is any
--   sequence of operations. Reads, Recorded, Changes, Invariants, History and Approved are the
--   proofs.
-- The modules whose names end in Examples or Runs apply the theorems to concrete states.
--
-- What the model is given: the clock, the hash of a command's JSON, the identifiers made from a
-- kind and a key, the hook after each write and the two statements that open a transaction
-- (Ledger.Fill.Environment), the digests of a broker's outcome (Ledger.Ingestion), the observed
-- legacy amount of a position (Ledger.Correction), and the digest of the flags' JSON
-- (Cutover.Active), the clock, the validation repository, SHA-256, the JSON encodings and strconv
-- for governance (Governance.Environment), and the source, strategy, risk, broker, ledger and
-- observer of an orchestrator, which may fail and change the world, strconv.FormatInt for the risk
-- engine, and the adapters, JSON, SHA-256, number scan and float64 operations of the parity
-- (Cutover.Parity). They are parameters, and nothing is assumed of them but what a result's entry
-- says. Case folding and lower case are those of ASCII letters.
--
-- What is not modelled: the float64 copies of exact columns, prices that the ledger only copies,
-- JSON metadata, constraints of the database other than the unique reversal, locks and concurrent
-- transactions (an operation runs alone, as the account's lock makes it), broadcasts of the hub
-- that run at once under its read lock (its operations run one after another), the parts of the
-- reconciliation that compare single records, conversions from float64 and JSON, the float64 stops
-- of a fill, `AppendAtomic`, the lookup that serves concurrent retries of `RecordBrokerOutcome`,
-- the brokers and strategies of the trading core, the walk-forward and persistence parts of
-- validation, and the packages for back tests, research, AI proposals, handlers and persistence.

pub mod Base
pub mod Accounting
pub mod Ledger
pub mod Validation
pub mod Websocket
pub mod Cutover
pub mod TradingCore
pub mod Governance
