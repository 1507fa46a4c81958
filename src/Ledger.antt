-- ===== src/Ledger.antt =====
-- internal/ledger: the double-entry ledger and its projections.
pub mod Error
pub mod Rows
pub mod Store
pub mod Command
pub mod Position
pub mod Order
pub mod Fill
pub mod Books
pub mod Positions
pub mod PositionLaws
pub mod Transaction
pub mod FillPostings
pub mod FillLaws
pub mod ApplyFill
pub mod CashEvents
pub mod Adjustment
pub mod AdjustmentLaws
pub mod Reconcile
pub mod Totals
pub mod TallySums
pub mod Agreement
pub mod ReconcileLaws
pub mod Reversal
pub mod Correction
pub mod ReversalLaws
pub mod PaperFill
pub mod OrderLaws
pub mod Solvent
pub mod Replay
pub mod Outcome
pub mod Ingestion
pub mod PlanLaws
pub mod IngestionLaws
pub mod IngestionOnce
mod Examples
mod OutcomeExamples
