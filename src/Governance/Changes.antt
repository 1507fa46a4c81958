-- ===== src/Governance/Changes.antt =====
-- Every operation of internal/governance/service.go leaves the deployments, or records one
-- transition.
use trading_bot.Governance.Reads.{
  transition_evidence-Same, Ensures-Same, check_trigger-Same, bound_evidence-Same,
  check_approval-Same, check_elapsed-Same, verify_ml_evidence-Same,
}
use trading_bot.Governance.Rollback.{
  RollbackRequest, rollback_row, fall_back, fallen_back, record_rollback, roll_back, rollback_body,
  is_replay_of_rollback, check_trigger, rollback_statement,
}
use trading_bot.Validation.Policy.{AuthorityPolicyEnvelope}
use trading_bot.Governance.Store.{deployment_of, transition_by_key, replace_deployment, Result}
use trading_bot.Validation.Experiment.{ExperimentManifest, PersistedEvidence}
use trading_bot.Governance.Transition.{
  TransitionRequest, install, state_of, record_transition, transition_row, new_deployment, advance,
  transition_body, is_replay_of, is_complete_transition, transition, transition_evidence,
}
use trading_bot.Governance.Recorded.{
  Recorded, Follows, Written, deployment_of-put, sign_transition-valid, record_transition-Written,
  deployment_of-replace_same, deployment_of-replace_other, deployment_of-key,
  record_rollback-Written, Change, unchanged, recorded,
}
use trading_bot.Governance.Rollout.{Principal, known_state, legal, eq_state, rollback}
use trading_bot.Governance.Rows.{
  Tables, GovernanceTransition, GovernanceDeployment, GovernanceMonitoringEvidence,
}
use trading_bot.Governance.Environment.{Environment, verify_transition, sign_transition}
use trading_bot.Base.{
  ◌≡◌, ◌⊎◌, refl, sym, ap, ◌∙◌, true, false, not, ◌&&◌, Option, some, List, String, if◌then◌else◌,
  str_eq, eq_iff, inl, inr, Bool-cases, Option-cases, arith,
}
use trading_bot.Base.Statements.{ok, err, settle}
use trading_bot.Base.Ensures.{
  Ensures, Ensures-bind, Ensures-guard, Ensures-lift, Ensures-if, Ensures-weaken, Ensures-and,
}

-- The result is the transition of the change.
abbrev pub Changed : Environment → Tables → GovernanceTransition → Tables → Type 0
Changed env before t after =
    ((after ≡ before)) ⊎ ((d : GovernanceDeployment) × Recorded env before after t d)

module _ (env : Environment) (db : Tables) (row : GovernanceTransition)
    (d : GovernanceDeployment) where
  -- What a written transition and its deployment must agree on.
  record Agrees : Type 0 where
    valid : verify_transition env row ≡ true
    context : d.context_key ≡ row.context_key
    state : d.state ≡ row.to_state
    policy : d.authority_policy_digest ≡ row.authority_policy_digest
    made_by : d.transition_id ≡ row.id
    left : row.from_state ≡ state_of (deployment_of row.context_key db.deployments)
    follows : Follows row.from_state row.to_state

  Written→Changed :
      (ds : List GovernanceDeployment)
      → ((k : String)
          → deployment_of k ds
            ≡ (if str_eq d.context_key k then some d else deployment_of k db.deployments))
      → Agrees
      → (t : GovernanceTransition) (db' : Tables) → Written db row ds t db'
      → Changed env db t db'
  Written→Changed ds put agrees t db' (same, logged, placed, fresh) = inr (
    d,
    rw same (record {
      logged = logged;
      fresh = fresh;
      valid = agrees.valid;
      put = λ k. rw placed (put k);
      context = agrees.context;
      state = agrees.state;
      policy = agrees.policy;
      made_by = agrees.made_by;
      left = agrees.left;
      follows = agrees.follows;
    }),
  )

settle-Change :
    (env : Environment) (db : Tables) (r : Result (GovernanceTransition × Tables))
    → Ensures (Changed env db) r
    → Change env db (settle db r).1
settle-Change env db (ok (t, db')) (inl same) =
    unchanged (ap (λ x. x.transitions) same) (ap (λ x. x.deployments) same)
settle-Change env db (ok (t, db')) (inr (d, h)) = recorded t d h
settle-Change env db (err e) h = unchanged refl refl

-- What the checks before the transaction make sure of.
record IsChecked (r : TransitionRequest) : Type 0 where
  known : known_state r.target_state ≡ true
  forward : eq_state r.target_state rollback ≡ false

is_checked :
    (r : TransitionRequest)
    → not (eq_state r.target_state rollback) ≡ true
    → is_complete_transition r ≡ true
    → IsChecked r
unfolding is_complete_transition
is_checked r f c = record { known = ground arith; forward = ground arith }

transition_evidence-IsChecked :
    (env : Environment) (p : Principal) (r : TransitionRequest) (db : Tables)
    → Ensures (λ x db'. IsChecked r) (transition_evidence env p r db)
unfolding transition_evidence
transition_evidence-IsChecked env p r db =
    search
      (
        Ensures-guard,
        Ensures-Same,
        Ensures-if,
        bound_evidence-Same,
        verify_ml_evidence-Same,
        is_checked r,
      )
      depth 14

module _ (env : Environment) (db : Tables) where
  module _ (p : Principal) (r : TransitionRequest) (m : ExperimentManifest)
      (v : PersistedEvidence) where
    written :
        (approval : String) (elapsed : Option String × String)
        → Follows (state_of (deployment_of r.context_key db.deployments)) r.target_state
        → (digest : String) (policy : AuthorityPolicyEnvelope)
        → Ensures (Changed env db) (
            record_transition env p r m v
              (transition_row env p r m v
                (state_of (deployment_of r.context_key db.deployments))
                approval
                elapsed
                digest
                policy.digest)
              policy
              db)
    unfolding transition_row new_deployment sign_transition
    written approval elapsed follows digest policy =
        let row : GovernanceTransition =
          transition_row env p r m v (state_of (deployment_of r.context_key db.deployments))
            approval elapsed digest policy.digest in
        let d : GovernanceDeployment = new_deployment env p r m v row policy in
        Ensures-weaken _ (Changed env db) _
          (Written→Changed env db row d _ (λ k. deployment_of-put k d db.deployments)
            (record {
              valid = sign_transition-valid env _;
              context = refl;
              state = refl;
              policy = refl;
              made_by = refl;
              left = refl;
              follows = follows;
            }))
          (record_transition-Written env row policy db p r m v)

    install-Changed :
        (approval : String) (elapsed : Option String × String)
        → Follows (state_of (deployment_of r.context_key db.deployments)) r.target_state
        → Ensures (Changed env db) (
            install env p r m v
              (state_of (deployment_of r.context_key db.deployments))
              approval
              elapsed
              db)
    unfolding install
    install-Changed approval elapsed follows = search (Ensures-lift, written) depth 8

    advance-Changed :
        IsChecked r
        → Ensures
            (Changed env db)
            (advance env p r m v (deployment_of r.context_key db.deployments) db)
    unfolding advance
    advance-Changed checked =
        search (Ensures-guard, Ensures-Same, check_approval-Same, check_elapsed-Same, installed)
          depth 8
      where
        installed :
            (a : String) (elapsed : Option String × String)
            → legal (state_of (deployment_of r.context_key db.deployments)) r.target_state ≡ true
            → Ensures (Changed env db) (
                install env p r m v
                  (state_of (deployment_of r.context_key db.deployments))
                  a
                  elapsed
                  db)
        installed a elapsed l = install-Changed a elapsed (inl (l, checked.known, checked.forward))

    transition_body-Changed :
        IsChecked r → Ensures (Changed env db) (transition_body env p r m v db)
    unfolding transition_body
    transition_body-Changed checked =
        elim (Option-cases (transition_by_key r.idempotency_key db.transitions)) [
          | inl h ↦ rw (h, transition_body, Ensures) (advance-Changed checked)
          | inr (t, h) ↦ elim (Bool-cases (verify_transition env t && is_replay_of r t)) [
            | inl g ↦ rw (h, g, transition_body, Ensures) (inl refl)
            | inr g ↦ rw (h, g, transition_body, Ensures) tt
          ]
        ]

  module _ (p : Principal) (r : RollbackRequest) (m : ExperimentManifest)
      (current : GovernanceDeployment)
      (found : deployment_of r.context_key db.deployments ≡ some current) where
    replaced :
        (d : GovernanceDeployment)
        → d.context_key ≡ r.context_key
        → (k : String)
        → deployment_of k (replace_deployment d db.deployments)
          ≡ (if str_eq d.context_key k then some d else deployment_of k db.deployments)
    replaced d e k = elim (Bool-cases (str_eq d.context_key k)) [
      | inl h ↦ rw h (
          deployment_of-replace_same k d current db.deployments h (
            ap (λ x. deployment_of x db.deployments) (sym ((eq_iff d.context_key k).0 h) ∙ e)
            ∙ found))
      | inr h ↦ rw h (deployment_of-replace_other k d db.deployments h)
    ]

    rolled_back :
        (monitor : GovernanceMonitoringEvidence) (digest : String)
        (policy : AuthorityPolicyEnvelope)
        → Ensures (Changed env db) (
            record_rollback env p r m current
              (rollback_row env p r current monitor digest policy.digest)
              policy
              db)
    unfolding rollback_row fallen_back sign_transition
    rolled_back monitor digest policy =
        let row : GovernanceTransition =
          rollback_row env p r current monitor digest policy.digest in
        let d : GovernanceDeployment = fallen_back env p r current row policy in
        Ensures-weaken _ (Changed env db) _
          (Written→Changed env db row d _
            (replaced d (deployment_of-key r.context_key current db.deployments found))
            (record {
              valid = sign_transition-valid env _;
              context = deployment_of-key r.context_key current db.deployments found;
              state = refl;
              policy = refl;
              made_by = refl;
              left = ap state_of (sym found);
              follows = inr refl;
            }))
          (record_rollback-Written env row policy db p r m current)

    fall_back-Changed :
        (monitor : GovernanceMonitoringEvidence)
        → Ensures (Changed env db) (fall_back env p r m current monitor db)
    unfolding fall_back
    fall_back-Changed monitor = search (Ensures-lift, rolled_back) depth 8

  -- The change that an operation makes, whatever it answers.
  pub transition-Change :
      (p : Principal) (r : TransitionRequest) → Change env db (transition env p r db).1
  unfolding transition
  transition-Change p r = settle-Change env db _ (
      Ensures-bind (λ x db'. (db' ≡ db) × IsChecked r) (Changed env db)
        (transition_evidence env p r db) (λ x. transition_body env p r x.0 x.1)
        (Ensures-and _ _ _ (transition_evidence-Same env p r db)
          (transition_evidence-IsChecked env p r db))
        λ x db' h. rw (h.0) (transition_body-Changed p r x.0 x.1 (h.1)))

  rollback_body-Changed :
      (p : Principal) (r : RollbackRequest) (m : ExperimentManifest)
      → Ensures (Changed env db) (rollback_body env p r m db)
  unfolding rollback_body
  rollback_body-Changed p r m =
      elim (Option-cases (transition_by_key r.idempotency_key db.transitions)) [
        | inl h ↦ elim (Option-cases (deployment_of r.context_key db.deployments)) [
          | inl g ↦ rw (h, g, rollback_body, Ensures) tt
          | inr (current, g) ↦
              rw (h, g, rollback_body, Ensures)
                (Ensures-Same (Changed env db) (check_trigger env p r m current)
                  (fall_back env p r m current) db (check_trigger-Same env p r m current db)
                  λ monitor e. fall_back-Changed p r m current g monitor)
        ]
        | inr (t, h) ↦ elim (Bool-cases (verify_transition env t && is_replay_of_rollback r t)) [
          | inl g ↦ rw (h, g, rollback_body, Ensures) (inl refl)
          | inr g ↦ rw (h, g, rollback_body, Ensures) tt
        ]
      ]

  rollback_statement-Changed :
      (p : Principal) (r : RollbackRequest)
      → Ensures (Changed env db) (rollback_statement env p r db)
  unfolding rollback_statement
  rollback_statement-Changed p r =
      search (Ensures-guard, Ensures-Same, bound_evidence-Same, rollback_body-Changed) depth 8

  pub roll_back-Change :
      (p : Principal) (r : RollbackRequest) → Change env db (roll_back env p r db).1
  unfolding roll_back
  roll_back-Change p r =
      settle-Change env db (rollback_statement env p r db) (rollback_statement-Changed p r)
