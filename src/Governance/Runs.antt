-- ===== src/Governance/Runs.antt =====
-- A strategy's run through the operations of internal/governance/service.go, and the theorems on it.
use trading_bot.Governance.History.{deployment-IsBacked, Reach-IsRolledBack, deployment-IsStaged}
use trading_bot.Governance.Approved.{IsApproved, transition-IsApproved}
use trading_bot.Governance.Invariants.{IsRolledBack, staged}
use trading_bot.Governance.Rollback.{
  roll_back, rollback_statement, is_complete_rollback, rollback_body, check_trigger,
  matches_monitor, is_triggered, compare_metric, fall_back, record_rollback, rollback_row,
  fallen_back,
}
use trading_bot.Governance.Monitoring.{
  record_monitoring_evidence, is_backed, checked_monitoring, write_monitoring, insert_monitoring,
  monitoring_row, is_envelope,
}
use trading_bot.Validation.Policy.{
  with_rollout_state, new_authority_policy_envelope, normalize, canonical_policy_scalar,
  canonical_word,
}
use trading_bot.Governance.Steps.{no_tables, at, Reach}
use trading_bot.Governance.Store.{
  deployment_of, create_transition, upsert_deployment, Result, update_deployment, transition_by_key,
}
use trading_bot.Governance.Approve.{
  ApprovalRequest, approve, approve_statement, approval_evidence, is_complete_approval,
  is_bounded_expiry, approval_row, store_approval,
}
use trading_bot.Governance.Transition.{
  transition, transition_evidence, TransitionRequest, state_of, transition_body, advance,
  check_approval, find_approval, matches_approval, check_elapsed, install, record_transition,
  transition_row, new_deployment, is_quarantined, is_complete_transition,
}
use trading_bot.Governance.Environment.{
  Environment, sign_transition, transition_digest, bound_evidence, is_passed, match_versions,
  authority_context, verify_ml_evidence, accepts_ml, sign_approval, approval_digest,
  verify_approval, sign_monitoring, monitoring_digest, load_monitoring_evidence, verify_monitoring,
}
use trading_bot.Governance.Rows.{Tables, record_not_found, GovernanceDeployment}
use trading_bot.Governance.Rollout.{
  Principal, State, shadow, to_approve, research, to_transition, to_rollback, allows, known_state,
  legal, next_state, paper, rollback,
}
use trading_bot.Validation.Experiment.{VersionRef, PersistedEvidence, ExperimentManifest}
use trading_bot.Base.{
  ◌≡◌, refl, Bool, true, false, Option, none, some, [], ◌∷◌, String, arith, pos, trim_text,
  lower_text,
}
use Prim.Native.String.{◌++◌ as append}
use trading_bot.Base.Float.{units}
use trading_bot.Governance.Steps.{here, next, approving, transitioning}
use trading_bot.Base.Statements.{ok, err}

abbrev version : VersionRef
version = record {
  id = "momentum";
  version = "1";
  implementation_digest = "i";
  config_digest = "c";
}

abbrev manifest : ExperimentManifest
manifest = record {
  id = "e";
  study_type = "confirmatory";
  exploratory = false;
  candidate = version;
  baseline = version;
  model = none;
  composite_policy = "p";
  authority_policy = record { schema_version = ""; payload = ("risk", "low") ∷ []; digest = "d" };
  dataset_manifest_hash = "h";
  rollback_thresholds = (record { metric = "drawdown"; op = ">"; value = units (pos 10) }) ∷ [];
  required_elapsed = λ s. 0;
}

abbrev evidence : PersistedEvidence
evidence = record {
  id = "v";
  experiment_id = "e";
  status = "passed";
  result = some (record { fold_digest = some "f"; passed = true });
  created_at = 5;
}

abbrev environment : Environment
environment = record {
  now = 10;
  validation = record {
    load_manifest = λ i. ok manifest;
    load_evidence = λ i. ok evidence;
    load_ml_evidence = λ i. err record_not_found;
    evidence_digest = λ i. ok "vd";
  };
  codec = record { parse_float = λ s. none; format_float = λ f. ""; policy_digest = λ s xs. "pd" };
  hash = append "#";
  marshal_approval = λ a. append "a" a.idempotency_key;
  marshal_transition = λ t. append "t" t.idempotency_key;
  marshal_monitoring = λ m. append "m" m.context_key;
  marshal_policy = λ p. p.digest;
  marshal_metrics = λ xs. "";
  unmarshal_metrics = λ s. some (("drawdown", units (pos 20)) ∷ []);
  canonical_json = λ s. s;
}

abbrev operator : Principal
operator = record {
  id = "ops";
  capabilities = to_approve ∷ to_transition ∷ to_rollback ∷ [];
  trusted = true;
}

abbrev context : String
context = "strategy:momentum@1"

abbrev to_state_of : State → String → String → TransitionRequest
to_state_of s key approval = record {
  idempotency_key = key;
  context_key = context;
  experiment_id = "e";
  evidence_id = "v";
  approval_id = approval;
  target_state = s;
  artifact_version = "1";
  policy_version = "p";
  fallback_version = "0";
  reason = "stage";
  elapsed_evidence_id = "";
}

abbrev approval_request : ApprovalRequest
approval_request = record {
  idempotency_key = "k";
  experiment_id = "e";
  evidence_id = "v";
  target_state = shadow;
  artifact_version = "1";
  policy_version = "p";
  reason = "ready";
  expires_at = 100;
}

abbrev in_research : Tables
in_research = (transition environment operator (to_state_of research "t1" "") no_tables).1

abbrev approved : Tables
approved = (approve environment operator approval_request in_research).1

abbrev in_shadow : Tables
in_shadow = (transition environment operator (to_state_of shadow "t2" "##ak") approved).1

abbrev later : Environment
later = at 50 environment.validation environment

abbrev observed : Tables
observed =
    (record_monitoring_evidence later
      (record {
        context_key = context;
        experiment_id = "e";
        window_start = 20;
        window_end = 40;
        expected_observations = pos 3;
        observed_observations = pos 3;
        metrics = ("drawdown", units (pos 20)) ∷ [];
      })
      operator in_shadow).1

abbrev in_rollback : Tables
in_rollback =
    (roll_back later operator
      (record {
        idempotency_key = "t3";
        context_key = context;
        experiment_id = "e";
        evidence_id = "v";
        fallback_version = "0";
        reason = "drawdown";
        monitoring_evidence_id = "##mstrategy:momentum@1";
      })
      observed).1

abbrev is_ok : {A : Type 0} → Result A → Bool
is_ok (ok a) = true
is_ok (err e) = false

-- The run: research, an approval, the shadow stage, and back after a drawdown.
run :
    (is_ok (transition environment operator (to_state_of shadow "t2" "##ak") approved).0 ≡ true)
    × (state_of (deployment_of context in_shadow.deployments) ≡ shadow)
    × (state_of (deployment_of context in_rollback.deployments) ≡ rollback)
    × (transition_by_key "t2" approved.transitions ≡ none)
unfolding transition transition_evidence transition_body advance check_approval find_approval
    matches_approval check_elapsed install record_transition create_transition upsert_deployment
    transition_row new_deployment sign_transition transition_digest is_quarantined
    is_complete_transition allows known_state legal next_state bound_evidence is_passed
    match_versions authority_context verify_ml_evidence accepts_ml with_rollout_state
    new_authority_policy_envelope normalize canonical_policy_scalar canonical_word approve
    approve_statement approval_evidence is_complete_approval is_bounded_expiry approval_row
    sign_approval approval_digest store_approval verify_approval trim_text lower_text
    record_monitoring_evidence checked_monitoring write_monitoring insert_monitoring monitoring_row
    sign_monitoring monitoring_digest is_envelope load_monitoring_evidence verify_monitoring
    roll_back rollback_statement is_complete_rollback rollback_body check_trigger matches_monitor
    is_triggered compare_metric fall_back record_rollback rollback_row fallen_back update_deployment
run = (refl, refl, refl, refl)

present :
    (o : Option GovernanceDeployment)
    → state_of o ≡ shadow
    → (d : GovernanceDeployment) × (o ≡ some d)
present none h = ground arith
present (some d) h = (d, refl)

answered : {A : Type 0} (r : Result A) → is_ok r ≡ true → (a : A) × (r ≡ ok a)
answered (ok a) h = (a, refl)
answered (err e) h = ground arith

reached : Reach environment no_tables in_shadow
reached =
    next
      (next
        (next here
          (transitioning 10 environment.validation operator (to_state_of research "t1" "") refl))
        (approving 10 environment.validation operator approval_request refl))
      (transitioning 10 environment.validation operator (to_state_of shadow "t2" "##ak") refl)

abbrev shadow_deployment :
    (d : GovernanceDeployment) × (deployment_of context in_shadow.deployments ≡ some d)
shadow_deployment = present (deployment_of context in_shadow.deployments) run.1

deployment-IsStaged_example : staged context shadow_deployment.0.state in_shadow.transitions ≡ true
deployment-IsStaged_example =
    deployment-IsStaged environment in_shadow context shadow_deployment.0 reached
      shadow_deployment.1

deployment-IsBacked_example : is_backed environment in_shadow.transitions shadow_deployment.0 ≡ true
deployment-IsBacked_example =
    deployment-IsBacked environment in_shadow context shadow_deployment.0 reached
      shadow_deployment.1

abbrev tried_again : Tables
tried_again = (transition later operator (to_state_of paper "t4" "") in_rollback).1

Reach-IsRolledBack_example : IsRolledBack context tried_again
Reach-IsRolledBack_example =
    Reach-IsRolledBack environment in_rollback tried_again context run.2 (
      next here (transitioning 50 environment.validation operator (to_state_of paper "t4" "") refl))

transition-IsApproved_example : IsApproved environment approved (to_state_of shadow "t2" "##ak")
transition-IsApproved_example =
    transition-IsApproved environment operator (to_state_of shadow "t2" "##ak") approved
      (answered _ run.0).0 run.3 (answered _ run.0).1
