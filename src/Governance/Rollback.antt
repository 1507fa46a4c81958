-- ===== src/Governance/Rollback.antt =====
-- `Rollback` of internal/governance/service.go.
use trading_bot.Validation.Policy.{AuthorityPolicyEnvelope}
use trading_bot.Governance.Store.{
  Statement, Result, transition_by_key, create_transition, update_deployment, deployment_of,
  write_model_authority_projection,
}
use trading_bot.Governance.Rollout.{eq_state, Principal, rollback, to_rollback}
use trading_bot.Governance.Environment.{
  Environment, sign_transition, string_value, policy_for, require, verify_transition,
  bound_evidence, load_monitoring_evidence, has_model,
}
use trading_bot.Governance.Rows.{
  GovernanceDeployment, GovernanceTransition, GovernanceMonitoringEvidence, Tables, coded,
  version_mismatch, integrity, fallback_required, rollback_gate, record_not_found,
}
use trading_bot.Validation.Experiment.{Threshold, ExperimentManifest}
use trading_bot.Base.{
  ℕ, ◌-◌, ◌*◌, Bool, false, not, ◌&&◌, ◌||◌, Option, none, some, List, [], ◌∷◌, String,
  if◌then◌else◌, str_eq, leb, pos, is_empty, ltb_ℤ, leb_ℤ,
}
use trading_bot.Base.Float.{Float, finite, float_lt, float_le}
use trading_bot.Base.Statements.{ok, err, ◌>>=◌, ◌>>◌, guard, lift, or_fail, pure, settle}

pub record RollbackRequest : Type 0 where
  pub idempotency_key : String
  pub context_key : String
  pub experiment_id : String
  pub evidence_id : String
  pub fallback_version : String
  pub reason : String
  pub monitoring_evidence_id : String

unfoldable pub is_complete_rollback : RollbackRequest → Bool
is_complete_rollback r = not (
    is_empty r.idempotency_key
    || is_empty r.context_key
    || is_empty r.experiment_id
    || is_empty r.evidence_id
    || is_empty r.fallback_version
    || is_empty r.reason
    || is_empty r.monitoring_evidence_id)

unfoldable pub is_replay_of_rollback : RollbackRequest → GovernanceTransition → Bool
is_replay_of_rollback r t =
    str_eq t.context_key r.context_key
    && str_eq t.experiment_id r.experiment_id
    && str_eq t.evidence_id r.evidence_id
    && eq_state t.to_state rollback
    && str_eq t.fallback_version r.fallback_version
    && str_eq t.reason r.reason
    && str_eq (string_value t.monitoring_evidence_id) r.monitoring_evidence_id

-- `compare`
unfoldable pub compare_metric : Float → String → Float → Bool
compare_metric v op t =
    if str_eq op ">"
    then float_lt t v
    else if str_eq op ">="
    then float_le t v
    else if str_eq op "<"
    then float_lt v t
    else if str_eq op "<="
    then float_le v t
    else false

abbrev pub metric_of : String → List (String × Float) → Option Float
metric_of k [] = none
metric_of k ((j, v) ∷ xs) = let rest = metric_of k xs in if str_eq j k then some v else rest

-- The loop over the thresholds.
unfoldable pub is_triggered : List (String × Float) → List Threshold → Bool
is_triggered metrics [] = false
is_triggered metrics (t ∷ ts) =
    let rest = is_triggered metrics ts in
    elim (metric_of t.metric metrics) [
      | none ↦ rest
      | some value ↦ (finite value && compare_metric value t.op t.value) || rest
    ]

abbrev pub day : ℕ
day = 24 * 3600 * 1000000

-- The monitoring evidence is recent, complete and about the deployment as it stands.
unfoldable pub matches_monitor :
    ℕ → RollbackRequest → GovernanceDeployment → GovernanceMonitoringEvidence → Bool
matches_monitor now r current monitor =
    str_eq monitor.context_key r.context_key
    && str_eq monitor.experiment_id r.experiment_id
    && str_eq monitor.deployment_transition_id current.transition_id
    && str_eq monitor.authority_policy_digest current.authority_policy_digest
    && str_eq monitor.artifact_version current.artifact_version
    && leb current.activated_at monitor.window_start
    && leb monitor.window_end now
    && leb (now - monitor.window_end) day
    && ltb_ℤ (pos 0) monitor.expected_observations
    && leb_ℤ monitor.expected_observations monitor.observed_observations

module _ (env : Environment) (p : Principal) (r : RollbackRequest) where
  unfoldable pub rollback_row :
      GovernanceDeployment → GovernanceMonitoringEvidence → String → String → GovernanceTransition
  rollback_row current monitor digest policy_digest = sign_transition env (record {
    id = "";
    idempotency_key = r.idempotency_key;
    context_key = r.context_key;
    experiment_id = r.experiment_id;
    evidence_id = r.evidence_id;
    approval_id = none;
    from_state = current.state;
    to_state = rollback;
    artifact_version = current.artifact_version;
    fallback_version = r.fallback_version;
    reason = r.reason;
    content_digest = "";
    created_at = env.now;
    policy_version = current.policy_version;
    authority_policy_digest = policy_digest;
    approval_digest = "";
    evidence_digest = digest;
    monitoring_evidence_id = some monitor.id;
    monitoring_evidence_digest = monitor.content_digest;
    actor = p.id;
  })

  -- The columns that the update sets.
  unfoldable pub fallen_back :
      GovernanceDeployment → GovernanceTransition → AuthorityPolicyEnvelope → GovernanceDeployment
  fallen_back current row policy = record current {
    state = rollback;
    artifact_version = r.fallback_version;
    activated_at = env.now;
    updated_at = env.now;
    authority_policy_json = env.marshal_policy policy;
    authority_policy_digest = policy.digest;
    transition_id = row.id;
  }

  module _ (m : ExperimentManifest) where
    -- The deployment must be the request's, and its monitoring evidence must reach a threshold.
    unfoldable pub check_trigger : GovernanceDeployment → Statement GovernanceMonitoringEvidence
    check_trigger current = do
      guard
          (str_eq current.experiment_id r.experiment_id && str_eq current.evidence_id r.evidence_id)
          (coded version_mismatch)
      guard (str_eq r.fallback_version current.fallback_version) (coded fallback_required)
      monitor ← load_monitoring_evidence env r.monitoring_evidence_id
      guard (matches_monitor env.now r current monitor) (coded rollback_gate)
      metrics ← or_fail (env.unmarshal_metrics monitor.metrics_json) (coded integrity)
      guard (is_triggered metrics m.rollback_thresholds) (coded rollback_gate)
      pure monitor

    unfoldable pub record_rollback :
        GovernanceDeployment
        → GovernanceTransition
        → AuthorityPolicyEnvelope
        → Statement GovernanceTransition
    record_rollback current row policy = do
      create_transition row
      update_deployment (fallen_back current row policy)
      if has_model m then write_model_authority_projection r.fallback_version rollback else pure tt
      pure row

    unfoldable pub fall_back :
        GovernanceDeployment → GovernanceMonitoringEvidence → Statement GovernanceTransition
    fall_back current monitor = do
      digest ← lift (env.validation.evidence_digest r.evidence_id)
      policy ← policy_for env m rollback
      record_rollback current (rollback_row current monitor digest policy.digest) policy

    unfoldable pub rollback_body : Statement GovernanceTransition
    rollback_body db = elim (transition_by_key r.idempotency_key db.transitions) [
      | some replay ↦
          if verify_transition env replay && is_replay_of_rollback r replay
          then ok (replay, db)
          else err (coded integrity)
      | none ↦ elim (deployment_of r.context_key db.deployments) [
        | none ↦ err record_not_found
        | some current ↦ (check_trigger current >>= fall_back current) db
      ]
    ]

  unfoldable pub rollback_statement : Statement GovernanceTransition
  rollback_statement = do
    require p to_rollback
    guard (is_complete_rollback r) (coded fallback_required)
    (m, v) ← bound_evidence env r.experiment_id r.evidence_id
    rollback_body m

  unfoldable pub roll_back : Tables → Result GovernanceTransition × Tables
  roll_back db = settle db (rollback_statement db)
