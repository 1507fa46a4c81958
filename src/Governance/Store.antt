-- ===== src/Governance/Store.antt =====
-- Statements on the tables of governance: searches by a column, and writes under the primary keys
-- and the unique idempotency keys.
use trading_bot.Governance.Rollout.{State, state_name}
use trading_bot.Governance.Rows.{
  GovernanceApproval, GovernanceDeployment, Tables, Failure, GovernanceMonitoringEvidence,
  GovernanceTransition, unique_violation,
}
use trading_bot.Base.{not, ◌||◌, Option, List, [], ◌∷◌, ◌++◌, String, if◌then◌else◌, str_eq, any}
use trading_bot.Base.Statements.{Outcome, StatementOn, ◌>>=◌, ◌>>◌, get, guard, modify, find}
use trading_bot.Base.Entries.{set_key}

abbrev pub Result {ℓ} : Type ℓ → Type ℓ
Result A = Outcome Failure A

abbrev pub Statement : Type 0 → Type 0
Statement A = StatementOn Tables Failure A

abbrev pub approval_by_key : String → List GovernanceApproval → Option GovernanceApproval
approval_by_key key = find (λ a. str_eq a.idempotency_key key)

abbrev pub approval_by_id : String → List GovernanceApproval → Option GovernanceApproval
approval_by_id id = find (λ a. str_eq a.id id)

abbrev pub transition_by_key : String → List GovernanceTransition → Option GovernanceTransition
transition_by_key key = find (λ t. str_eq t.idempotency_key key)

abbrev pub transition_by_id : String → List GovernanceTransition → Option GovernanceTransition
transition_by_id id = find (λ t. str_eq t.id id)

abbrev pub deployment_of : String → List GovernanceDeployment → Option GovernanceDeployment
deployment_of key = find (λ d. str_eq d.context_key key)

abbrev pub monitoring_by_id :
    String → List GovernanceMonitoringEvidence → Option GovernanceMonitoringEvidence
monitoring_by_id id = find (λ m. str_eq m.id id)

-- `tx.Create(&row)` of a transition.
unfoldable pub create_transition : GovernanceTransition → Statement (Unit {0})
create_transition row = do
  rows ← get (λ db. db.transitions)
  guard (not (any (λ t. str_eq t.id row.id || str_eq t.idempotency_key row.idempotency_key) rows))
      unique_violation
  modify (λ db. record db { transitions = db.transitions ++ row ∷ [] })

abbrev pub replace_deployment :
    GovernanceDeployment → List GovernanceDeployment → List GovernanceDeployment
replace_deployment d [] = []
replace_deployment d (e ∷ es) =
    (if str_eq e.context_key d.context_key then d else e) ∷ replace_deployment d es

abbrev pub put_deployment :
    GovernanceDeployment → List GovernanceDeployment → List GovernanceDeployment
put_deployment d [] = d ∷ []
put_deployment d (e ∷ es) =
    let rest = put_deployment d es in
    if str_eq e.context_key d.context_key then d ∷ es else e ∷ rest

-- The row of its context, or a new one.
unfoldable pub upsert_deployment : GovernanceDeployment → Statement (Unit {0})
upsert_deployment d = modify (λ db. record db { deployments = put_deployment d db.deployments })

unfoldable pub update_deployment : GovernanceDeployment → Statement (Unit {0})
update_deployment d = modify (λ db. record db { deployments = replace_deployment d db.deployments })

-- `writeModelAuthorityProjection`, the two settings in one of the orders of the map.
unfoldable pub write_model_authority_projection : String → State → Statement (Unit {0})
write_model_authority_projection version state = modify (λ db. record db {
  settings =
      set_key "model_rollout_state" (state_name state)
        (set_key "active_model_version" version db.settings);
})
