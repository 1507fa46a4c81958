-- ===== src/Governance.antt =====
-- internal/governance: who may move a model or strategy through the rollout states.
pub mod Rollout
pub mod Rows
pub mod Store
pub mod Environment
pub mod Approve
pub mod Transition
pub mod Rollback
pub mod Monitoring
mod Reads
mod Recorded
mod Changes
mod Steps
mod Invariants
mod History
mod Approved
mod Runs
mod Examples
