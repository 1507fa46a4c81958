-- ===== src/Governance/History.antt =====
-- The invariants of the deployments of internal/governance/service.go, from empty tables on.
use trading_bot.Governance.Monitoring.{is_backed}
use trading_bot.Governance.Store.{deployment_of}
use trading_bot.Governance.Transition.{state_of}
use trading_bot.Governance.Steps.{Reach, no_tables, next, Step-Change}
use trading_bot.Governance.Rows.{Tables, GovernanceDeployment}
use trading_bot.Governance.Environment.{Environment}
use trading_bot.Base.{◌≡◌, sym, ap, ◌∙◌, true, some, String, arith}
use trading_bot.Governance.Recorded.{unchanged, recorded}
use trading_bot.Governance.Steps.{here, next}
use trading_bot.Governance.Invariants.{
  recorded-IsStaged, recorded-IsBacked, recorded-rollback, IsRolledBack, IsBacked, IsStaged, staged,
}

Reach-IsStaged : (env : Environment) (db : Tables) → Reach env no_tables db → IsStaged db
Reach-IsStaged env db here = λ k d found. ground arith
Reach-IsStaged env db (next {t = t} r s) = elim (Step-Change env t db s) [
  | unchanged e f ↦ λ k d found.
      ap (staged k d.state) e ∙ Reach-IsStaged env t r k d (sym (ap (deployment_of k) f) ∙ found)
  | recorded u d c ↦ recorded-IsStaged env t db u d c (Reach-IsStaged env t r)
]

Reach-IsBacked : (env : Environment) (db : Tables) → Reach env no_tables db → IsBacked env db
Reach-IsBacked env db here = λ k d found. ground arith
Reach-IsBacked env db (next {t = t} r s) = elim (Step-Change env t db s) [
  | unchanged e f ↦ λ k d found.
      ap (λ ts. is_backed env ts d) e
      ∙ Reach-IsBacked env t r k d (sym (ap (deployment_of k) f) ∙ found)
  | recorded u d c ↦ recorded-IsBacked env t db u d c (Reach-IsBacked env t r)
]

-- After any sequence of operations from empty tables, by anyone and at any times, the log has a
-- transition of a deployment's context to the deployment's state and to every stage before it, and
-- that state is one of the stages or the rollback state.
pub deployment-IsStaged :
    (env : Environment) (db : Tables) (k : String) (d : GovernanceDeployment)
    → Reach env no_tables db
    → deployment_of k db.deployments ≡ some d
    → staged k d.state db.transitions ≡ true
deployment-IsStaged env db k d r found = Reach-IsStaged env db r k d found

-- After any sequence of operations from empty tables, the last part of `VerifyDeployment` accepts
-- every deployment: the log has the transition that made it, whole, with its context, state and
-- policy digest.
pub deployment-IsBacked :
    (env : Environment) (db : Tables) (k : String) (d : GovernanceDeployment)
    → Reach env no_tables db
    → deployment_of k db.deployments ≡ some d
    → is_backed env db.transitions d ≡ true
deployment-IsBacked env db k d r found = Reach-IsBacked env db r k d found

-- No sequence of operations takes a context out of the rollback state.
pub Reach-IsRolledBack :
    (env : Environment) (start db : Tables) (k : String)
    → IsRolledBack k start
    → Reach env start db
    → IsRolledBack k db
Reach-IsRolledBack env start db k h here = h
Reach-IsRolledBack env start db k h (next {t = t} r s) = elim (Step-Change env t db s) [
  | unchanged e f ↦
      ap (λ ds. state_of (deployment_of k ds)) f ∙ Reach-IsRolledBack env start t k h r
  | recorded u d c ↦ recorded-rollback env t db u d c k (Reach-IsRolledBack env start t k h r)
]
