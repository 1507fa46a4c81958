-- ===== src/Governance/Approved.antt =====
-- `Transition` of internal/governance/service.go goes by a stored approval.
use trading_bot.Governance.Reads.{Ensures-Same, transition_evidence-Same}
use trading_bot.Validation.Experiment.{PersistedEvidence, ExperimentManifest}
use trading_bot.Governance.Rollout.{eq_state, no_state, research, Principal}
use trading_bot.Governance.Store.{
  approval_by_id, deployment_of, Result, transition_by_key, Statement,
}
use trading_bot.Governance.Transition.{
  matches_approval, TransitionRequest, state_of, check_approval, advance, transition_evidence,
  transition_body, find_approval, transition,
}
use trading_bot.Governance.Rows.{
  Tables, GovernanceApproval, GovernanceTransition, coded, approval_mismatch,
}
use trading_bot.Governance.Environment.{Environment, verify_approval}
use trading_bot.Base.{
  ◌<◌, ◌≡◌, Bool, true, ◌&&◌, none, some, String, eq_iff, inl, inr, Bool-cases, arith, ltb→lt,
}
use trading_bot.Base.Statements.{ok, err, settle, ◌>>=◌, ◌>>◌, guard, pure}
use trading_bot.Base.Ensures.{
  Ensures, Ensures-bind, Ensures-guard, Ensures-lift, Ensures-if, Ensures-or_fail,
}

-- The approval is stored and whole, not expired, and for this request and the deployment as it
-- stands.
pub record Approves (env : Environment) (db : Tables) (r : TransitionRequest)
    (a : GovernanceApproval) : Type 0 where
  pub stored : approval_by_id r.approval_id db.approvals ≡ some a
  pub whole : verify_approval env a ≡ true
  pub experiment : a.experiment_id ≡ r.experiment_id
  pub evidence : a.evidence_id ≡ r.evidence_id
  pub target : eq_state a.target_state r.target_state ≡ true
  pub artifact : a.artifact_version ≡ r.artifact_version
  pub policy : a.policy_version ≡ r.policy_version
  pub unexpired : env.now < a.expires_at
  pub source :
      eq_state a.source_state (state_of (deployment_of r.context_key db.deployments)) ≡ true

-- The first deployment of a context, in research, needs no approval.
abbrev pub is_first : Tables → TransitionRequest → Bool
is_first db r =
    eq_state (state_of (deployment_of r.context_key db.deployments)) no_state
    && eq_state r.target_state research

pub data IsApproved (env : Environment) (db : Tables) (r : TransitionRequest) : Type 0 where
  first : is_first db r ≡ true → IsApproved env db r
  approved_by : (a : GovernanceApproval) → Approves env db r a → IsApproved env db r

approves :
    (env : Environment) (db : Tables) (r : TransitionRequest) (v : PersistedEvidence)
    (digest policy : String) (a : GovernanceApproval)
    → approval_by_id r.approval_id db.approvals ≡ some a
    → matches_approval env.now r v (deployment_of r.context_key db.deployments) digest policy a
      ≡ true
    → verify_approval env a ≡ true
    → Approves env db r a
unfolding matches_approval
approves env db r v digest policy a stored m whole =
    let (experiment, evidence, target, artifact, version, unexpired, source) =
      facts _ _ _ _ _ _ _ _ _ _ _ m in
    record {
      stored = stored;
      whole = whole;
      experiment = (eq_iff a.experiment_id r.experiment_id).0 experiment;
      evidence = (eq_iff a.evidence_id r.evidence_id).0 evidence;
      target = target;
      artifact = (eq_iff a.artifact_version r.artifact_version).0 artifact;
      policy = (eq_iff a.policy_version r.policy_version).0 version;
      unexpired = ltb→lt env.now a.expires_at unexpired;
      source = source;
    }
  where
    facts :
        (a b c d e f g h i j k : Bool)
        → (a && b && c && d && e && f && g && h && i && j && k) ≡ true
        → (a ≡ true) × (b ≡ true) × (c ≡ true) × (d ≡ true) × (e ≡ true) × (g ≡ true) × (h ≡ true)
    facts a b c d e f g h i j k p = ground arith

-- A statement that fails or answers keeps what was true before it.
Ensures-const : {A : Type 0} (X : Type 0) (x : X) (r : Result (A × Tables)) → Ensures (λ a db'. X) r
Ensures-const X x (ok (a, db)) = x
Ensures-const X x (err e) = tt

module _ (env : Environment) (p : Principal) (r : TransitionRequest) (db : Tables) where
  find_approval-IsApproved :
      (m : ExperimentManifest) (v : PersistedEvidence)
      → Ensures
          (λ digest db'. IsApproved env db r)
          (find_approval env p r m v (deployment_of r.context_key db.deployments) db)
  unfolding find_approval
  find_approval-IsApproved m v =
      search (Ensures-guard, Ensures-or_fail, Ensures-lift, checks) depth 10
    where
      checks :
          (digest policy : String) (a : GovernanceApproval)
          → approval_by_id r.approval_id db.approvals ≡ some a
          → Ensures
              (λ x db'. IsApproved env db r)
              ((guard
                    (matches_approval env.now r v
                      (deployment_of r.context_key db.deployments)
                      digest
                      policy
                      a)
                    (coded approval_mismatch)
                  >> (guard (verify_approval env a) (coded approval_mismatch)
                      >> pure a.content_digest))
                db)
      checks digest policy a stored =
          elim (Bool-cases (
            matches_approval env.now r v (deployment_of r.context_key db.deployments) digest policy
              a)) [
                | inl m ↦ elim (Bool-cases (verify_approval env a)) [
                  | inl whole ↦
                      rw (m, whole)
                        (approved_by a (approves env db r v digest policy a stored m whole))
                  | inr g ↦ rw (m, g) tt
                ]
                | inr g ↦ rw g tt
              ]

  check_approval-IsApproved :
      (m : ExperimentManifest) (v : PersistedEvidence)
      → Ensures
          (λ digest db'. IsApproved env db r)
          (check_approval env p r m v (deployment_of r.context_key db.deployments) db)
  unfolding check_approval
  check_approval-IsApproved m v = search (Ensures-if, first, find_approval-IsApproved)

  -- What follows the check of the approval keeps what it made sure of.
  with_approval :
      (m : ExperimentManifest) (v : PersistedEvidence) (k : String → Statement GovernanceTransition)
      → Ensures
          (λ t db'. IsApproved env db r)
          ((check_approval env p r m v (deployment_of r.context_key db.deployments) >>= k) db)
  with_approval m v k =
      Ensures-bind (λ x db'. IsApproved env db r) (λ t db'. IsApproved env db r)
        (check_approval env p r m v (deployment_of r.context_key db.deployments) db) k
        (check_approval-IsApproved m v) (λ x db' h. Ensures-const _ h (k x db'))

  advance-IsApproved :
      (m : ExperimentManifest) (v : PersistedEvidence)
      → Ensures
          (λ t db'. IsApproved env db r)
          (advance env p r m v (deployment_of r.context_key db.deployments) db)
  unfolding advance
  advance-IsApproved m v = search (Ensures-guard, with_approval)

  body-IsApproved :
      transition_by_key r.idempotency_key db.transitions ≡ none
      → (x : ExperimentManifest × PersistedEvidence)
      → Ensures (λ t db'. IsApproved env db r) (transition_body env p r x.0 x.1 db)
  unfolding transition_body
  body-IsApproved fresh x = rw (fresh, transition_body, Ensures) (advance-IsApproved x.0 x.1)

  transition_statement-IsApproved :
      transition_by_key r.idempotency_key db.transitions ≡ none
      → Ensures
          (λ t db'. IsApproved env db r)
          ((transition_evidence env p r >>= λ x. transition_body env p r x.0 x.1) db)
  transition_statement-IsApproved fresh =
      Ensures-Same (λ t db'. IsApproved env db r) (transition_evidence env p r)
        (λ x. transition_body env p r x.0 x.1) db (transition_evidence-Same env p r db)
        (λ x e. body-IsApproved fresh x)

-- Where Transition answers with a transition that was not there before, other than the first one of
-- a context into research, an approval with the request's identifier is stored; its digest and
-- identifier are those of its content, it names the request's experiment, evidence, state, artifact
-- and policy, the state the context is in, and it has not expired.
pub transition-IsApproved :
    (env : Environment) (p : Principal) (r : TransitionRequest) (db : Tables)
    (t : GovernanceTransition)
    → transition_by_key r.idempotency_key db.transitions ≡ none
    → (transition env p r db).0 ≡ ok t
    → IsApproved env db r
unfolding transition
transition-IsApproved env p r db t fresh h =
    settled ((transition_evidence env p r >>= λ x. transition_body env p r x.0 x.1) db)
      (transition_statement-IsApproved env p r db fresh) h
  where
    settled :
        (x : Result (GovernanceTransition × Tables))
        → Ensures (λ t db'. IsApproved env db r) x
        → (settle db x).0 ≡ ok t
        → IsApproved env db r
    settled (ok (u, db')) e h = e
    settled (err f) e h = ground arith
