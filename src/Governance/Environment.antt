-- ===== src/Governance/Environment.antt =====
-- What the service is given, and the checks that its operations share: `boundEvidence`,
-- `verifyMLEvidence`, `matchVersions`, `authorityContext` and the digests.
use trading_bot.Governance.Store.{Result, Statement, monitoring_by_id}
use trading_bot.Governance.Rows.{
  Failure, GovernanceApproval, GovernanceMonitoringEvidence, GovernanceTransition, coded, other,
  evidence_failed, version_mismatch, unauthorized, rollback_gate, integrity,
}
use trading_bot.Governance.Rollout.{Principal, State, Capability, state_name, allows}
use trading_bot.Base.{ℕ, Bool, true, false, ◌&&◌, Option, none, some, List, String, str_eq}
use Prim.Native.String.{◌++◌ as append}
use trading_bot.Base.Float.{Float}
use trading_bot.Base.Statements.{Outcome, ok, err, ◌>>=◌, ◌>>◌, guard, lift, or_fail, pure, get}
use trading_bot.Validation.Policy.{
  PolicyCodec, AuthorityPolicyEnvelope, PolicyError, with_rollout_state,
}
use trading_bot.Validation.Experiment.{
  ExperimentManifest, PersistedEvidence, WalkForwardResult, MlEvidence, ModelAuthority, Repository,
  eq_version_ref,
}

-- The clock, the validation repository, and what the code takes from crypto/sha256 and
-- encoding/json.
pub record Environment : Type 0 where
  pub now : ℕ
  pub validation : Repository Failure
  pub codec : PolicyCodec
  pub hash : String → String
  pub marshal_approval : GovernanceApproval → String
  pub marshal_transition : GovernanceTransition → String
  pub marshal_monitoring : GovernanceMonitoringEvidence → String
  pub marshal_policy : AuthorityPolicyEnvelope → String
  pub marshal_metrics : List (String × Float) → String
  pub unmarshal_metrics : String → Option (List (String × Float))
  -- A text read and written again, or the text itself where it is not JSON.
  pub canonical_json : String → String

abbrev pub string_value : Option String → String
string_value none = ""
string_value (some s) = s

-- `p.require(capability)`
abbrev pub require : Principal → Capability → Statement (Unit {0})
require p c = guard (allows p c) (coded unauthorized)

-- `evidence.Status != "passed" || evidence.Result == nil || !evidence.Result.Aggregate.Passed`,
-- negated.
unfoldable pub is_passed : PersistedEvidence → Bool
is_passed e = str_eq e.status "passed" && elim e.result [ none ↦ false | some r ↦ r.passed ]

unfoldable pub match_versions : ExperimentManifest → String → String → Bool
match_versions m artifact policy =
    str_eq artifact (elim m.model [ none ↦ m.candidate.version | some a ↦ a.version ])
    && str_eq policy m.composite_policy

unfoldable pub authority_context : ExperimentManifest → String
authority_context m = elim m.model [
  | none ↦ append "strategy:" (append m.candidate.id (append "@" m.candidate.version))
  | some a ↦ append "model:" a.version
]

-- What `verifyMLEvidence` compares.
unfoldable pub matches_ml :
    ExperimentManifest → ModelAuthority → WalkForwardResult → MlEvidence → Bool
matches_ml m a r ml =
    elim r.fold_digest [ none ↦ false | some d ↦ str_eq d ml.fold_evidence_digest ]
    && str_eq ml.artifact_digest a.model_digest
    && str_eq ml.training_manifest_digest a.training_manifest
    && eq_version_ref ml.baseline_strategy m.baseline
    && str_eq ml.baseline_policy_digest m.composite_policy
    && str_eq ml.dataset_manifest_digest m.dataset_manifest_hash
    && ml.passed

abbrev pub has_model : ExperimentManifest → Bool
has_model m = elim m.model [ none ↦ false | some a ↦ true ]

-- Every error of `verifyMLEvidence` has the same code; an experiment without a model passes.
unfoldable pub accepts_ml :
    ExperimentManifest → Option ModelAuthority → Result MlEvidence → Option WalkForwardResult → Bool
accepts_ml m none loaded result = true
accepts_ml m (some a) (ok ml) (some r) = matches_ml m a r ml
accepts_ml m (some a) _ _ = false

-- The JSON of a row holds every column but the identifier and the digest.
abbrev pub approval_payload : GovernanceApproval → GovernanceApproval
approval_payload row = record row { id = ""; content_digest = "" }

abbrev pub transition_payload : GovernanceTransition → GovernanceTransition
transition_payload row = record row { id = ""; content_digest = "" }

-- An error of the validation package.
abbrev pub policy_result :
    Outcome PolicyError AuthorityPolicyEnvelope → Result AuthorityPolicyEnvelope
policy_result (ok p) = ok p
policy_result (err e) = err other

module _ (env : Environment) where
  unfoldable pub bound_evidence :
      String → String → Statement (ExperimentManifest × PersistedEvidence)
  bound_evidence manifest_id evidence_id = do
    m ← lift (env.validation.load_manifest manifest_id)
    v ← lift (env.validation.load_evidence evidence_id)
    guard (str_eq v.experiment_id m.id) (coded version_mismatch)
    pure (m, v)

  unfoldable pub verify_ml_evidence : ExperimentManifest → PersistedEvidence → Statement (Unit {0})
  verify_ml_evidence m v =
      guard (accepts_ml m m.model (env.validation.load_ml_evidence m.id) v.result)
        (coded evidence_failed)

  abbrev pub policy_for : ExperimentManifest → State → Statement AuthorityPolicyEnvelope
  policy_for m s =
      lift (policy_result (with_rollout_state env.codec m.authority_policy (state_name s)))

  unfoldable pub approval_digest : GovernanceApproval → String
  approval_digest row = env.hash (env.marshal_approval (approval_payload row))

  unfoldable pub transition_digest : GovernanceTransition → String
  transition_digest row = env.hash (env.marshal_transition (transition_payload row))

  -- Nor does that of monitoring evidence hold the time of its record.
  abbrev pub monitoring_payload : GovernanceMonitoringEvidence → GovernanceMonitoringEvidence
  monitoring_payload row = record row {
    id = "";
    content_digest = "";
    metrics_json = env.canonical_json row.metrics_json;
    created_at = 0;
  }

  unfoldable pub monitoring_digest : GovernanceMonitoringEvidence → String
  monitoring_digest row = env.hash (env.marshal_monitoring (monitoring_payload row))

  -- `VerifyApproval` and `VerifyTransition`: no error.
  unfoldable pub verify_approval : GovernanceApproval → Bool
  verify_approval row =
      str_eq row.content_digest (approval_digest row) && str_eq row.id (env.hash row.content_digest)

  unfoldable pub verify_transition : GovernanceTransition → Bool
  verify_transition row =
      str_eq row.content_digest (transition_digest row)
      && str_eq row.id (env.hash row.content_digest)

  unfoldable pub verify_monitoring : GovernanceMonitoringEvidence → Bool
  verify_monitoring row =
      str_eq row.content_digest (monitoring_digest row)
      && str_eq row.id (env.hash row.content_digest)

  -- The digest and the identifier of a new row.
  unfoldable pub sign_approval : GovernanceApproval → GovernanceApproval
  sign_approval row =
      let d = approval_digest row in record row { content_digest = d; id = env.hash d }

  unfoldable pub sign_transition : GovernanceTransition → GovernanceTransition
  sign_transition row =
      let d = transition_digest row in record row { content_digest = d; id = env.hash d }

  unfoldable pub sign_monitoring : GovernanceMonitoringEvidence → GovernanceMonitoringEvidence
  sign_monitoring row =
      let d = monitoring_digest row in record row { content_digest = d; id = env.hash d }

  unfoldable pub load_monitoring_evidence : String → Statement GovernanceMonitoringEvidence
  load_monitoring_evidence id = do
    rows ← get (λ db. db.monitoring)
    row ← or_fail (monitoring_by_id id rows) (coded rollback_gate)
    guard (verify_monitoring row) (coded integrity)
    pure row
