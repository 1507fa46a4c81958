-- ===== src/Governance/Rows.antt =====
-- The tables of governance in internal/database/models.go, and the errors of
-- internal/governance/service.go. A state's column holds the State, a time is its microseconds
-- since Go's zero time.
use trading_bot.Base.{ℕ, Option, List, String, ℤ}
use trading_bot.Governance.Rollout.{State}

pub data Code : Type 0 where
  illegal_transition approval_required approval_mismatch evidence_failed version_mismatch : Code
  artifact_quarantined elapsed_evidence rollback_gate fallback_required integrity : Code
  unauthorized : Code

-- An error of this package, gorm.ErrRecordNotFound, a violated unique index, or one of the
-- validation package or the database.
pub data Failure : Type 0 where
  coded : Code → Failure
  record_not_found unique_violation other : Failure

pub record GovernanceApproval : Type 0 where
  pub id : String
  pub idempotency_key : String
  pub experiment_id : String
  pub evidence_id : String
  pub target_state : State
  pub artifact_version : String
  pub policy_version : String
  pub approver : String
  pub reason : String
  pub approved_at : ℕ
  pub content_digest : String
  pub source_state : State
  pub source_activated_at : ℕ
  pub authority_policy_digest : String
  pub evidence_digest : String
  pub expires_at : ℕ

pub record GovernanceTransition : Type 0 where
  pub id : String
  pub idempotency_key : String
  pub context_key : String
  pub experiment_id : String
  pub evidence_id : String
  pub approval_id : Option String
  pub from_state : State
  pub to_state : State
  pub artifact_version : String
  pub fallback_version : String
  pub reason : String
  pub content_digest : String
  pub created_at : ℕ
  pub policy_version : String
  pub authority_policy_digest : String
  pub approval_digest : String
  pub evidence_digest : String
  pub monitoring_evidence_id : Option String
  pub monitoring_evidence_digest : String
  pub actor : String

pub record GovernanceDeployment : Type 0 where
  pub context_key : String
  pub experiment_id : String
  pub evidence_id : String
  pub state : State
  pub artifact_version : String
  pub policy_version : String
  pub fallback_version : String
  pub activated_at : ℕ
  pub updated_at : ℕ
  pub authority_policy_json : String
  pub authority_policy_digest : String
  pub transition_id : String

pub record GovernanceMonitoringEvidence : Type 0 where
  pub id : String
  pub context_key : String
  pub experiment_id : String
  pub deployment_transition_id : String
  pub authority_policy_digest : String
  pub artifact_version : String
  pub window_start : ℕ
  pub window_end : ℕ
  pub expected_observations : ℤ
  pub observed_observations : ℤ
  pub metrics_json : String
  pub content_digest : String
  pub created_at : ℕ

-- The settings by key; of the other tables only the validation package reads.
pub record Tables : Type 0 where
  pub approvals : List GovernanceApproval
  pub transitions : List GovernanceTransition
  pub deployments : List GovernanceDeployment
  pub monitoring : List GovernanceMonitoringEvidence
  pub settings : List (String × String)
