-- ===== src/Governance/Transition.antt =====
-- `Transition` of internal/governance/service.go.
use trading_bot.Validation.Policy.{AuthorityPolicyEnvelope}
use trading_bot.Governance.Store.{
  Statement, Result, transition_by_key, create_transition, write_model_authority_projection,
  upsert_deployment, deployment_of, approval_by_id,
}
use trading_bot.Governance.Environment.{
  Environment, string_value, sign_transition, policy_for, require, verify_transition,
  bound_evidence, load_monitoring_evidence, is_passed, verify_approval, verify_ml_evidence,
  match_versions, authority_context, has_model,
}
use trading_bot.Validation.Experiment.{ExperimentManifest, PersistedEvidence, can_hold_authority}
use trading_bot.Governance.Rows.{
  GovernanceDeployment, GovernanceTransition, GovernanceApproval, GovernanceMonitoringEvidence,
  Tables, coded, approval_required, illegal_transition, elapsed_evidence, integrity,
  artifact_quarantined, approval_mismatch, evidence_failed, version_mismatch,
}
use trading_bot.Governance.Rollout.{
  State, known_state, eq_state, no_state, Principal, paper, limited_live, full_live, research,
  legal, state_name, to_transition, rollback,
}
use trading_bot.Base.{
  ℕ, ◌-◌, Bool, false, not, ◌&&◌, ◌||◌, Option, none, some, String, if◌then◌else◌, str_eq, ◌==◌,
  ltb, leb, is_empty, leb_ℤ,
}
use trading_bot.Base.Statements.{ok, err, ◌>>=◌, ◌>>◌, get, guard, lift, or_fail, pure, settle}

pub record TransitionRequest : Type 0 where
  pub idempotency_key : String
  pub context_key : String
  pub experiment_id : String
  pub evidence_id : String
  pub approval_id : String
  pub target_state : State
  pub artifact_version : String
  pub policy_version : String
  pub fallback_version : String
  pub reason : String
  pub elapsed_evidence_id : String

unfoldable pub is_complete_transition : TransitionRequest → Bool
is_complete_transition r = not (
    is_empty r.idempotency_key
    || is_empty r.context_key
    || is_empty r.experiment_id
    || is_empty r.evidence_id
    || is_empty r.artifact_version
    || is_empty r.policy_version
    || is_empty r.reason
    || not (known_state r.target_state))

-- The stored transition of the key is that of the request.
unfoldable pub is_replay_of : TransitionRequest → GovernanceTransition → Bool
is_replay_of r t =
    str_eq t.context_key r.context_key
    && str_eq t.experiment_id r.experiment_id
    && str_eq t.evidence_id r.evidence_id
    && eq_state t.to_state r.target_state
    && str_eq t.artifact_version r.artifact_version
    && str_eq t.fallback_version r.fallback_version
    && str_eq t.reason r.reason
    && str_eq (string_value t.approval_id) r.approval_id
    && str_eq (string_value t.monitoring_evidence_id) r.elapsed_evidence_id

-- The state and the time of activation of a deployment; those of none are empty and zero.
abbrev pub state_of : Option GovernanceDeployment → State
state_of none = no_state
state_of (some d) = d.state

abbrev pub activated_of : Option GovernanceDeployment → ℕ
activated_of none = 0
activated_of (some d) = d.activated_at

abbrev pub column_of : (GovernanceDeployment → String) → Option GovernanceDeployment → String
column_of f none = ""
column_of f (some d) = f d

-- The approval is for this request, this evidence and the deployment as it stands.
unfoldable pub matches_approval :
    ℕ
    → TransitionRequest
    → PersistedEvidence
    → Option GovernanceDeployment
    → String
    → String
    → GovernanceApproval
    → Bool
matches_approval now r v current evidence_digest policy_digest a =
    str_eq a.experiment_id r.experiment_id
    && str_eq a.evidence_id r.evidence_id
    && eq_state a.target_state r.target_state
    && str_eq a.artifact_version r.artifact_version
    && str_eq a.policy_version r.policy_version
    && leb v.created_at a.approved_at
    && ltb now a.expires_at
    && eq_state a.source_state (state_of current)
    && (a.source_activated_at == activated_of current)
    && str_eq a.evidence_digest evidence_digest
    && str_eq a.authority_policy_digest policy_digest

-- The monitoring evidence is for the deployment as it stands, long enough and complete.
unfoldable pub matches_elapsed :
    ℕ → ℕ → TransitionRequest → Option GovernanceDeployment → GovernanceMonitoringEvidence → Bool
matches_elapsed now elapsed r current monitor =
    str_eq monitor.context_key r.context_key
    && str_eq monitor.experiment_id r.experiment_id
    && str_eq monitor.deployment_transition_id (column_of (λ d. d.transition_id) current)
    && str_eq monitor.authority_policy_digest (column_of (λ d. d.authority_policy_digest) current)
    && leb (activated_of current) monitor.window_start
    && leb monitor.window_end now
    && leb elapsed (monitor.window_end - monitor.window_start)
    && leb_ℤ monitor.expected_observations monitor.observed_observations

-- A model of a class without authority stays out of paper and live trading.
unfoldable pub is_quarantined : ExperimentManifest → State → Bool
is_quarantined m to =
    (eq_state to paper || eq_state to limited_live || eq_state to full_live)
    && elim m.model [ none ↦ false | some a ↦ not (can_hold_authority a) ]

module _ (env : Environment) (p : Principal) (r : TransitionRequest) where
  -- The checks before the transaction.
  unfoldable pub transition_evidence : Statement (ExperimentManifest × PersistedEvidence)
  transition_evidence = do
    require p to_transition
    guard (not (eq_state r.target_state rollback)) (coded illegal_transition)
    guard (is_complete_transition r) (coded illegal_transition)
    (m, v) ← bound_evidence env r.experiment_id r.evidence_id
    guard (eq_state r.target_state research || is_passed v) (coded evidence_failed)
    if eq_state r.target_state research then pure tt else verify_ml_evidence env m v
    guard (match_versions m r.artifact_version r.policy_version) (coded version_mismatch)
    guard (str_eq r.context_key (authority_context m)) (coded version_mismatch)
    pure (m, v)

  module _ (m : ExperimentManifest) (v : PersistedEvidence) where
    unfoldable pub find_approval : Option GovernanceDeployment → Statement String
    find_approval current = do
      guard (not (is_empty r.approval_id)) (coded approval_required)
      rows ← get (λ db. db.approvals)
      a ← or_fail (approval_by_id r.approval_id rows) (coded approval_mismatch)
      digest ← lift (env.validation.evidence_digest r.evidence_id)
      policy ← policy_for env m r.target_state
      guard (matches_approval env.now r v current digest policy.digest a) (coded approval_mismatch)
      guard (verify_approval env a) (coded approval_mismatch)
      pure a.content_digest

    -- The content digest of the approval, empty for a first deployment in research, which needs
    -- none.
    unfoldable pub check_approval : Option GovernanceDeployment → Statement String
    check_approval current =
        if eq_state (state_of current) no_state && eq_state r.target_state research
        then pure ""
        else find_approval current

    -- The monitoring evidence that the manifest asks for, and its digest.
    unfoldable pub check_elapsed : Option GovernanceDeployment → Statement (Option String × String)
    check_elapsed current =
        if m.required_elapsed (state_name r.target_state) == 0 then pure (none, "") else (do
          guard (not (is_empty r.elapsed_evidence_id)) (coded elapsed_evidence)
          monitor ← load_monitoring_evidence env r.elapsed_evidence_id
          guard
              (matches_elapsed env.now (m.required_elapsed (state_name r.target_state)) r current
                monitor)
              (coded elapsed_evidence)
          pure (some monitor.id, monitor.content_digest))

    unfoldable pub transition_row :
        State → String → Option String × String → String → String → GovernanceTransition
    transition_row from approval elapsed digest policy_digest = sign_transition env (record {
      id = "";
      idempotency_key = r.idempotency_key;
      context_key = r.context_key;
      experiment_id = r.experiment_id;
      evidence_id = r.evidence_id;
      approval_id = if is_empty r.approval_id then none else some r.approval_id;
      from_state = from;
      to_state = r.target_state;
      artifact_version = r.artifact_version;
      fallback_version = r.fallback_version;
      reason = r.reason;
      content_digest = "";
      created_at = env.now;
      policy_version = r.policy_version;
      authority_policy_digest = policy_digest;
      approval_digest = approval;
      evidence_digest = digest;
      monitoring_evidence_id = elapsed.0;
      monitoring_evidence_digest = elapsed.1;
      actor = p.id;
    })

    unfoldable pub new_deployment :
        GovernanceTransition → AuthorityPolicyEnvelope → GovernanceDeployment
    new_deployment row policy = record {
      context_key = r.context_key;
      experiment_id = r.experiment_id;
      evidence_id = r.evidence_id;
      state = r.target_state;
      artifact_version = r.artifact_version;
      policy_version = r.policy_version;
      fallback_version = r.fallback_version;
      activated_at = env.now;
      updated_at = env.now;
      authority_policy_json = env.marshal_policy policy;
      authority_policy_digest = policy.digest;
      transition_id = row.id;
    }

    abbrev pub project : Statement (Unit {0})
    project =
        if has_model m && not (eq_state r.target_state research)
        then write_model_authority_projection r.artifact_version r.target_state
        else pure tt

    unfoldable pub record_transition :
        GovernanceTransition → AuthorityPolicyEnvelope → Statement GovernanceTransition
    record_transition row policy = do
      create_transition row
      upsert_deployment (new_deployment row policy)
      project
      pure row

    -- The writes, for the checked approval and monitoring evidence.
    unfoldable pub install :
        State → String → Option String × String → Statement GovernanceTransition
    install from approval elapsed = do
      digest ← lift (env.validation.evidence_digest r.evidence_id)
      policy ← policy_for env m r.target_state
      record_transition (transition_row from approval elapsed digest policy.digest) policy

    unfoldable pub advance : Option GovernanceDeployment → Statement GovernanceTransition
    advance current = do
      guard (legal (state_of current) r.target_state) (coded illegal_transition)
      approval ← check_approval current
      guard (not (is_quarantined m r.target_state)) (coded artifact_quarantined)
      elapsed ← check_elapsed current
      install (state_of current) approval elapsed

    -- The transaction, under the lock of its context.
    unfoldable pub transition_body : Statement GovernanceTransition
    transition_body db = elim (transition_by_key r.idempotency_key db.transitions) [
      | some replay ↦
          if verify_transition env replay && is_replay_of r replay
          then ok (replay, db)
          else err (coded integrity)
      | none ↦ advance (deployment_of r.context_key db.deployments) db
    ]

  unfoldable pub transition : Tables → Result GovernanceTransition × Tables
  transition db = settle db ((transition_evidence >>= λ x. transition_body x.0 x.1) db)
