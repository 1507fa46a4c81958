-- ===== src/Governance/Approve.antt =====
-- `Approve` of internal/governance/service.go.
use trading_bot.Validation.Experiment.{ExperimentManifest, PersistedEvidence}
use trading_bot.Governance.Store.{Statement, Result, deployment_of, approval_by_key}
use trading_bot.Governance.Environment.{
  Environment, sign_approval, authority_context, verify_approval, policy_for, require,
  bound_evidence, is_passed, verify_ml_evidence, match_versions,
}
use trading_bot.Governance.Rows.{
  GovernanceApproval, GovernanceDeployment, Tables, unique_violation, coded, approval_mismatch,
  integrity, evidence_failed, version_mismatch,
}
use trading_bot.Governance.Rollout.{known_state, State, eq_state, Principal, to_approve}
use trading_bot.Base.{
  ℕ, ◌+◌, ◌*◌, Bool, not, ◌&&◌, ◌||◌, none, some, [], ◌∷◌, ◌++◌, String, if◌then◌else◌, str_eq,
  ◌==◌, ltb, leb, is_empty, any, trim_text,
}
use trading_bot.Base.Statements.{ok, err, ◌>>=◌, ◌>>◌, get, guard, lift, or_fail, pure, settle}

pub record ApprovalRequest : Type 0 where
  pub idempotency_key : String
  pub experiment_id : String
  pub evidence_id : String
  pub target_state : State
  pub artifact_version : String
  pub policy_version : String
  pub reason : String
  -- 0 is Go's zero time.
  pub expires_at : ℕ

unfoldable pub is_complete_approval : ApprovalRequest → Bool
is_complete_approval r = not (
    is_empty r.idempotency_key
    || is_empty r.experiment_id
    || is_empty r.evidence_id
    || is_empty r.artifact_version
    || is_empty r.policy_version
    || is_empty (trim_text r.reason)
    || not (known_state r.target_state))

-- Seven days, in microseconds.
abbrev pub approval_window : ℕ
approval_window = 7 * 24 * 3600 * 1000000

-- The expiry lies in the next seven days.
unfoldable pub is_bounded_expiry : ℕ → ℕ → Bool
is_bounded_expiry now expires =
    not (expires == 0 || not (ltb now expires) || ltb (now + approval_window) expires)

-- A stored approval is the one this request makes, save for the time of approval.
unfoldable pub same_approval : GovernanceApproval → GovernanceApproval → Bool
same_approval stored row =
    str_eq stored.experiment_id row.experiment_id
    && str_eq stored.evidence_id row.evidence_id
    && eq_state stored.target_state row.target_state
    && str_eq stored.artifact_version row.artifact_version
    && str_eq stored.policy_version row.policy_version
    && str_eq stored.approver row.approver
    && str_eq stored.reason row.reason
    && (stored.expires_at == row.expires_at)
    && eq_state stored.source_state row.source_state
    && (stored.source_activated_at == row.source_activated_at)
    && str_eq stored.evidence_digest row.evidence_digest
    && str_eq stored.authority_policy_digest row.authority_policy_digest

module _ (env : Environment) where
  -- The checks that come before the deployment is read.
  unfoldable pub approval_evidence :
      Principal → ApprovalRequest → Statement (ExperimentManifest × PersistedEvidence)
  approval_evidence p r = do
    require p to_approve
    guard (is_complete_approval r) (coded approval_mismatch)
    (m, v) ← bound_evidence env r.experiment_id r.evidence_id
    guard (is_passed v) (coded evidence_failed)
    verify_ml_evidence env m v
    guard (not (m.exploratory || not (str_eq m.study_type "confirmatory"))) (coded evidence_failed)
    guard (match_versions m r.artifact_version r.policy_version) (coded version_mismatch)
    guard (is_bounded_expiry env.now r.expires_at) (coded approval_mismatch)
    pure (m, v)

  unfoldable pub approval_row :
      Principal → ApprovalRequest → GovernanceDeployment → String → String → GovernanceApproval
  approval_row p r source evidence_digest policy_digest = sign_approval env (record {
    id = "";
    idempotency_key = r.idempotency_key;
    experiment_id = r.experiment_id;
    evidence_id = r.evidence_id;
    target_state = r.target_state;
    artifact_version = r.artifact_version;
    policy_version = r.policy_version;
    approver = p.id;
    reason = trim_text r.reason;
    approved_at = env.now;
    content_digest = "";
    source_state = source.state;
    source_activated_at = source.activated_at;
    authority_policy_digest = policy_digest;
    evidence_digest = evidence_digest;
    expires_at = r.expires_at;
  })

  -- `ON CONFLICT (idempotency_key) DO NOTHING`, and what follows where nothing was written.
  unfoldable pub store_approval : GovernanceApproval → Statement GovernanceApproval
  store_approval row db = elim (approval_by_key row.idempotency_key db.approvals) [
    | none ↦
        if any (λ a. str_eq a.id row.id) db.approvals
        then err unique_violation
        else ok (row, record db { approvals = db.approvals ++ row ∷ [] })
    | some existing ↦
        if same_approval existing row && verify_approval env existing
        then ok (existing, db)
        else err (coded integrity)
  ]

  unfoldable pub approve_statement : Principal → ApprovalRequest → Statement GovernanceApproval
  approve_statement p r = do
    (m, v) ← approval_evidence p r
    rows ← get (λ db. db.deployments)
    source ← or_fail (deployment_of (authority_context m) rows) (coded approval_mismatch)
    guard (leb source.activated_at env.now) (coded approval_mismatch)
    digest ← lift (env.validation.evidence_digest r.evidence_id)
    policy ← policy_for env m r.target_state
    store_approval (approval_row p r source digest policy.digest)

  -- `Approve`: its one write comes last, so that an error leaves the tables alone.
  unfoldable pub approve : Principal → ApprovalRequest → Tables → Result GovernanceApproval × Tables
  approve p r db = settle db (approve_statement p r db)
