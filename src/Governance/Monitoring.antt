-- ===== src/Governance/Monitoring.antt =====
-- `RecordMonitoringEvidence` and `VerifyDeployment` of internal/governance/service.go.
use trading_bot.Validation.Policy.{AuthorityPolicyEnvelope, verify_policy}
use trading_bot.Governance.Rollout.{Principal, to_rollback, eq_state}
use trading_bot.Governance.Store.{
  transition_by_id, Statement, monitoring_by_id, deployment_of, Result,
}
use trading_bot.Governance.Environment.{
  Environment, sign_monitoring, verify_transition, require, load_monitoring_evidence,
}
use trading_bot.Governance.Rows.{
  GovernanceDeployment, GovernanceTransition, GovernanceMonitoringEvidence, Tables,
  record_not_found, coded, integrity,
}
use trading_bot.Base.{
  ℕ, Bool, true, false, not, ◌&&◌, Option, none, some, List, [], ◌∷◌, ◌++◌, String, str_eq, ltb,
  leb, ℤ, pos, is_empty, all, ltb_ℤ, leb_ℤ,
}
use trading_bot.Base.Float.{Float, finite}
use trading_bot.Base.Statements.{ok, err, ◌>>=◌, ◌>>◌, get, guard, or_fail, pure}

pub record MonitoringEvidenceRequest : Type 0 where
  pub context_key : String
  pub experiment_id : String
  pub window_start : ℕ
  pub window_end : ℕ
  pub expected_observations : ℤ
  pub observed_observations : ℤ
  pub metrics : List (String × Float)

-- The window lies between the activation and now, and the counts are in order.
unfoldable pub is_envelope : ℕ → GovernanceDeployment → MonitoringEvidenceRequest → Bool
is_envelope now d r =
    str_eq d.experiment_id r.experiment_id
    && leb d.activated_at r.window_start
    && ltb r.window_start r.window_end
    && leb r.window_end now
    && ltb_ℤ (pos 0) r.expected_observations
    && leb_ℤ (pos 0) r.observed_observations
    && leb_ℤ r.observed_observations r.expected_observations

abbrev pub is_metric : String × Float → Bool
is_metric (k, v) = not (is_empty k) && finite v

module _ (env : Environment) (r : MonitoringEvidenceRequest) where
  unfoldable pub monitoring_row : GovernanceDeployment → GovernanceMonitoringEvidence
  monitoring_row d = sign_monitoring env (record {
    id = "";
    context_key = r.context_key;
    experiment_id = r.experiment_id;
    deployment_transition_id = d.transition_id;
    authority_policy_digest = d.authority_policy_digest;
    artifact_version = d.artifact_version;
    window_start = r.window_start;
    window_end = r.window_end;
    expected_observations = r.expected_observations;
    observed_observations = r.observed_observations;
    metrics_json = env.marshal_metrics r.metrics;
    content_digest = "";
    created_at = env.now;
  })

  -- `ON CONFLICT (id) DO NOTHING`
  unfoldable pub insert_monitoring : GovernanceMonitoringEvidence → Tables → Tables
  insert_monitoring row db = elim (monitoring_by_id row.id db.monitoring) [
    | some existing ↦ db
    | none ↦ record db { monitoring = db.monitoring ++ row ∷ [] }
  ]

  unfoldable pub checked_monitoring : Principal → Statement GovernanceMonitoringEvidence
  checked_monitoring p = do
    require p to_rollback
    rows ← get (λ db. db.deployments)
    d ← or_fail (deployment_of r.context_key rows) record_not_found
    guard (is_envelope env.now d r) (coded integrity)
    guard (all is_metric r.metrics) (coded integrity)
    pure (monitoring_row d)

  abbrev pub answer :
      Result (GovernanceMonitoringEvidence × Tables) → Result GovernanceMonitoringEvidence
  answer (ok (row, db)) = ok row
  answer (err e) = err e

  -- The write, then the load of what was written; no transaction takes the write back.
  unfoldable pub write_monitoring :
      Tables
      → Result (GovernanceMonitoringEvidence × Tables)
      → Result GovernanceMonitoringEvidence × Tables
  write_monitoring db (err e) = (err e, db)
  write_monitoring db (ok (row, db')) =
      let after = insert_monitoring row db' in
      (answer (load_monitoring_evidence env row.id after), after)

  unfoldable pub record_monitoring_evidence :
      Principal → Tables → Result GovernanceMonitoringEvidence × Tables
  record_monitoring_evidence p db = write_monitoring db (checked_monitoring p db)

-- `VerifyDeployment`, after the policy: the transition that made the deployment.
abbrev pub backs : Environment → Option GovernanceTransition → GovernanceDeployment → Bool
backs env none d = false
backs env (some t) d =
    verify_transition env t
    && str_eq t.context_key d.context_key
    && eq_state t.to_state d.state
    && str_eq t.authority_policy_digest d.authority_policy_digest

unfoldable pub is_backed : Environment → List GovernanceTransition → GovernanceDeployment → Bool
is_backed env transitions d = backs env (transition_by_id d.transition_id transitions) d

module _ (env : Environment) (unmarshal : String → Option AuthorityPolicyEnvelope) where
  -- The policy of the row is whole.
  unfoldable pub is_policy_of : GovernanceDeployment → Bool
  is_policy_of d = elim (unmarshal d.authority_policy_json) [
    | none ↦ false
    | some policy ↦
        elim (verify_policy env.codec policy) [ none ↦ true | some e ↦ false ]
        && str_eq policy.digest d.authority_policy_digest
  ]

  unfoldable pub verify_deployment : Tables → GovernanceDeployment → Bool
  verify_deployment db d = is_policy_of d && is_backed env db.transitions d
