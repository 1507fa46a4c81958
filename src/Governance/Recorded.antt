-- ===== src/Governance/Recorded.antt =====
-- What a transition that `Transition` or `Rollback` of internal/governance/service.go makes writes.
use trading_bot.Governance.Rollback.{record_rollback, RollbackRequest, fallen_back}
use trading_bot.Validation.Policy.{AuthorityPolicyEnvelope}
use trading_bot.Validation.Experiment.{ExperimentManifest, PersistedEvidence}
use trading_bot.Governance.Transition.{
  state_of, record_transition, TransitionRequest, new_deployment,
}
use trading_bot.Governance.Store.{
  transition_by_id, deployment_of, replace_deployment, put_deployment, create_transition,
  upsert_deployment, write_model_authority_projection, update_deployment,
}
use trading_bot.Governance.Rows.{GovernanceDeployment, Tables, GovernanceTransition}
use trading_bot.Governance.Environment.{
  Environment, verify_transition, sign_transition, transition_digest, has_model,
}
use trading_bot.Governance.Rollout.{
  State, legal, known_state, eq_state, rollback, Principal, research,
}
use trading_bot.Base.{
  ◌≡◌, ◌⊎◌, refl, sym, ap, ◌∙◌, true, false, not, ◌&&◌, ◌||◌, none, some, List, [], ◌∷◌, ◌++◌,
  String, if◌then◌else◌, str_eq, eq_iff, eq_refl, inl, inr, Bool-cases, arith, any,
}
use trading_bot.Base.Ensures.{Ensures}

-- A deployment's state may follow another by a transition: the next stage, or the rollback state
-- from any.
abbrev pub Follows : State → State → Type 0
Follows from to =
    ((legal from to ≡ true) × (known_state to ≡ true) × (eq_state to rollback ≡ false))
    ⊎ (to ≡ rollback)

-- The tables `after` are those of `before` with the transition `t` appended and the deployment `d`
-- put in its context's place.
pub record Recorded (env : Environment) (before after : Tables) (t : GovernanceTransition)
    (d : GovernanceDeployment) : Type 0 where
  pub logged : after.transitions ≡ before.transitions ++ t ∷ []
  pub fresh : transition_by_id t.id before.transitions ≡ none
  pub valid : verify_transition env t ≡ true
  pub put :
      (k : String)
      → deployment_of k after.deployments
        ≡ (if str_eq d.context_key k then some d else deployment_of k before.deployments)
  pub context : d.context_key ≡ t.context_key
  pub state : d.state ≡ t.to_state
  pub policy : d.authority_policy_digest ≡ t.authority_policy_digest
  pub made_by : d.transition_id ≡ t.id
  pub left : t.from_state ≡ state_of (deployment_of t.context_key before.deployments)
  pub follows : Follows t.from_state t.to_state

-- An operation leaves the transitions and the deployments, or records one transition.
pub data Change (env : Environment) (before after : Tables) : Type 0 where
  unchanged :
      after.transitions ≡ before.transitions
      → after.deployments ≡ before.deployments
      → Change env before after
  recorded :
      (t : GovernanceTransition) (d : GovernanceDeployment)
      → Recorded env before after t d
      → Change env before after

-- Equal keys pass the same tests.
str_eq_same : (a b k : String) → str_eq a b ≡ true → str_eq a k ≡ str_eq b k
str_eq_same a b k h = ap (λ x. str_eq x k) ((eq_iff a b).0 h)

str_eq_both : (a b k : String) → str_eq a k ≡ true → str_eq b k ≡ true → str_eq a b ≡ true
str_eq_both a b k h g = (eq_iff a b).1 ((eq_iff a k).0 h ∙ sym ((eq_iff b k).0 g))

pub deployment_of-put :
    (k : String) (d : GovernanceDeployment) (ds : List GovernanceDeployment)
    → deployment_of k (put_deployment d ds)
      ≡ (if str_eq d.context_key k then some d else deployment_of k ds)
deployment_of-put k d [] = refl
deployment_of-put k d (e ∷ es) = ground (
  arith,
  deployment_of-put k d es,
  str_eq_same e.context_key d.context_key k,
  str_eq_both e.context_key d.context_key k,
)

pub deployment_of-replace_other :
    (k : String) (d : GovernanceDeployment) (ds : List GovernanceDeployment)
    → str_eq d.context_key k ≡ false
    → deployment_of k (replace_deployment d ds) ≡ deployment_of k ds
deployment_of-replace_other k d [] h = refl
deployment_of-replace_other k d (e ∷ es) h =
    ground (arith, deployment_of-replace_other k d es h, str_eq_same e.context_key d.context_key k)

pub deployment_of-replace_same :
    (k : String) (d c : GovernanceDeployment) (ds : List GovernanceDeployment)
    → str_eq d.context_key k ≡ true
    → deployment_of k ds ≡ some c
    → deployment_of k (replace_deployment d ds) ≡ some d
deployment_of-replace_same k d c [] h g = ground arith
deployment_of-replace_same k d c (e ∷ es) h g = ground (
  arith,
  deployment_of-replace_same k d c es h,
  str_eq_same e.context_key d.context_key k,
  str_eq_both e.context_key d.context_key k,
)

pub deployment_of-key :
    (k : String) (d : GovernanceDeployment) (ds : List GovernanceDeployment)
    → deployment_of k ds ≡ some d
    → d.context_key ≡ k
deployment_of-key k d [] h = ground arith
deployment_of-key k d (e ∷ es) h =
    ground (arith, deployment_of-key k d es, (eq_iff e.context_key k).0)

pub sign_transition-valid :
    (env : Environment) (row : GovernanceTransition)
    → verify_transition env (sign_transition env row) ≡ true
unfolding verify_transition sign_transition transition_digest
sign_transition-valid env row =
    rw (eq_refl (transition_digest env row), eq_refl (env.hash (transition_digest env row))) refl

-- No row has the new one's identifier.
fresh_id :
    (row : GovernanceTransition) (ts : List GovernanceTransition)
    → any (λ t. str_eq t.id row.id || str_eq t.idempotency_key row.idempotency_key) ts ≡ false
    → transition_by_id row.id ts ≡ none
fresh_id row [] h = refl
fresh_id row (t ∷ ts) h = ground (arith, fresh_id row ts)

-- The tables after a write of a transition and its deployment.
abbrev pub Written :
    Tables
    → GovernanceTransition
    → List GovernanceDeployment
    → GovernanceTransition
    → Tables
    → Type 0
Written db row ds t db' =
    (t ≡ row)
    × (db'.transitions ≡ db.transitions ++ row ∷ [])
    × (db'.deployments ≡ ds)
    × (transition_by_id row.id db.transitions ≡ none)

module _ (env : Environment) (row : GovernanceTransition) (policy : AuthorityPolicyEnvelope)
    (db : Tables) where
  pub record_transition-Written :
      (p : Principal) (r : TransitionRequest) (m : ExperimentManifest) (v : PersistedEvidence)
      → Ensures
          (Written db row (put_deployment (new_deployment env p r m v row policy) db.deployments))
          (record_transition env p r m v row policy db)
  unfolding record_transition create_transition upsert_deployment write_model_authority_projection
  record_transition-Written p r m v =
      elim (Bool-cases (
        any (λ t. str_eq t.id row.id || str_eq t.idempotency_key row.idempotency_key)
          db.transitions)) [
            | inl h ↦ rw h tt
            | inr h ↦ elim (Bool-cases (has_model m && not (eq_state r.target_state research))) [
              | inl g ↦ rw (h, g) (refl, refl, refl, fresh_id row db.transitions h)
              | inr g ↦ rw (h, g) (refl, refl, refl, fresh_id row db.transitions h)
            ]
          ]

  pub record_rollback-Written :
      (p : Principal) (r : RollbackRequest) (m : ExperimentManifest)
      (current : GovernanceDeployment)
      → Ensures
          (Written db row
            (replace_deployment (fallen_back env p r current row policy) db.deployments))
          (record_rollback env p r m current row policy db)
  unfolding record_rollback create_transition update_deployment write_model_authority_projection
  record_rollback-Written p r m current =
      elim (Bool-cases (
        any (λ t. str_eq t.id row.id || str_eq t.idempotency_key row.idempotency_key)
          db.transitions)) [
            | inl h ↦ rw h tt
            | inr h ↦ elim (Bool-cases (has_model m)) [
              | inl g ↦ rw (h, g) (refl, refl, refl, fresh_id row db.transitions h)
              | inr g ↦ rw (h, g) (refl, refl, refl, fresh_id row db.transitions h)
            ]
          ]
