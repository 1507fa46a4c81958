-- ===== src/Governance/Steps.antt =====
-- Any sequence of operations of internal/governance/service.go, by anyone and at any times.
use trading_bot.Governance.Reads.{
  Same, Ensures-Same, checked_monitoring-Same, approval_evidence-Same,
}
use trading_bot.Governance.Store.{approval_by_key, Result, monitoring_by_id}
use trading_bot.Governance.Monitoring.{
  MonitoringEvidenceRequest, record_monitoring_evidence, insert_monitoring, write_monitoring,
  checked_monitoring,
}
use trading_bot.Governance.Rollback.{RollbackRequest, roll_back}
use trading_bot.Governance.Transition.{TransitionRequest, transition}
use trading_bot.Governance.Approve.{
  ApprovalRequest, approve, store_approval, approve_statement, same_approval,
}
use trading_bot.Governance.Rollout.{Principal}
use trading_bot.Governance.Recorded.{Change, unchanged, recorded}
use trading_bot.Governance.Environment.{
  verify_transition, Environment, transition_digest, verify_approval,
}
use trading_bot.Governance.Rows.{Tables, Failure, GovernanceApproval, GovernanceMonitoringEvidence}
use trading_bot.Base.{ℕ, ◌≡◌, refl, ◌&&◌, [], str_eq, inl, inr, Bool-cases, Option-cases, any}
use trading_bot.Governance.Changes.{transition-Change, roll_back-Change}
use trading_bot.Base.Statements.{ok, err, settle}
use trading_bot.Base.Ensures.{Ensures, Ensures-or_fail, Ensures-guard, Ensures-lift}
use trading_bot.Validation.Experiment.{Repository}

-- The service at a time, with the experiments and the evidence of that time.
abbrev pub at : ℕ → Repository Failure → Environment → Environment
at now validation env = record env { now = now; validation = validation }

-- One operation, by anyone, at any time.
pub data Step (env : Environment) (before after : Tables) : Type 0 where
  approving :
      (now : ℕ) (v : Repository Failure) (p : Principal) (r : ApprovalRequest)
      → after ≡ (approve (at now v env) p r before).1
      → Step env before after
  transitioning :
      (now : ℕ) (v : Repository Failure) (p : Principal) (r : TransitionRequest)
      → after ≡ (transition (at now v env) p r before).1
      → Step env before after
  rolling_back :
      (now : ℕ) (v : Repository Failure) (p : Principal) (r : RollbackRequest)
      → after ≡ (roll_back (at now v env) p r before).1
      → Step env before after
  monitoring_by :
      (now : ℕ) (v : Repository Failure) (p : Principal) (r : MonitoringEvidenceRequest)
      → after ≡ (record_monitoring_evidence (at now v env) r p before).1
      → Step env before after

pub data Reach (env : Environment) (start : Tables) : Tables → Type 0 where
  here : Reach env start start
  next : {t u : Tables} → Reach env start t → Step env t u → Reach env start u

abbrev pub no_tables : Tables
no_tables = record {
  approvals = [];
  transitions = [];
  deployments = [];
  monitoring = [];
  settings = [];
}

abbrev Kept : {A : Type 0} → Tables → A → Tables → Type 0
Kept db a db' = (db'.transitions ≡ db.transitions) × (db'.deployments ≡ db.deployments)

store_approval-Kept :
    (env : Environment) (row : GovernanceApproval) (db : Tables)
    → Ensures (Kept db) (store_approval env row db)
unfolding store_approval
store_approval-Kept env row db =
    elim (Option-cases (approval_by_key row.idempotency_key db.approvals)) [
      | inl h ↦ elim (Bool-cases (any (λ a. str_eq a.id row.id) db.approvals)) [
        | inl g ↦ rw (h, g, store_approval, Ensures) tt
        | inr g ↦ rw (h, g, store_approval, Ensures) (refl, refl)
      ]
      | inr (a, h) ↦ elim (Bool-cases (same_approval a row && verify_approval env a)) [
        | inl g ↦ rw (h, g, store_approval, Ensures) (refl, refl)
        | inr g ↦ rw (h, g, store_approval, Ensures) tt
      ]
    ]

approve_statement-Kept :
    (env : Environment) (p : Principal) (r : ApprovalRequest) (db : Tables)
    → Ensures (Kept db) (approve_statement env p r db)
unfolding approve_statement
approve_statement-Kept env p r db =
    search
      (
        Ensures-Same, Ensures-or_fail, Ensures-guard, Ensures-lift, approval_evidence-Same,
        store_approval-Kept,
      )
      depth 10

-- The signature of a transition does not depend on the time.
Change-at :
    (env : Environment) (now : ℕ) (v : Repository Failure) (before after : Tables)
    → Change (at now v env) before after
    → Change env before after
unfolding verify_transition transition_digest
Change-at env now v before after (unchanged t d) = unchanged t d
Change-at env now v before after (recorded t d c) = recorded t d (record {
  logged = c.logged;
  fresh = c.fresh;
  valid = c.valid;
  put = c.put;
  context = c.context;
  state = c.state;
  policy = c.policy;
  made_by = c.made_by;
  left = c.left;
  follows = c.follows;
})

approve-Change :
    (env : Environment) (db : Tables) (p : Principal) (r : ApprovalRequest)
    → Change env db (approve env p r db).1
unfolding approve
approve-Change env db p r =
    settled (approve_statement env p r db) (approve_statement-Kept env p r db)
  where
    settled :
        (x : Result (GovernanceApproval × Tables))
        → Ensures (Kept db) x
        → Change env db (settle db x).1
    settled (ok (a, db')) k = unchanged (k.0) (k.1)
    settled (err e) k = unchanged refl refl

insert_monitoring-Kept :
    (env : Environment) (r : MonitoringEvidenceRequest) (row : GovernanceMonitoringEvidence)
    (db : Tables)
    → Kept db row (insert_monitoring env r row db)
unfolding insert_monitoring
insert_monitoring-Kept env r row db = elim (Option-cases (monitoring_by_id row.id db.monitoring)) [
  | inl h ↦ rw (h, insert_monitoring) (refl, refl)
  | inr (m, h) ↦ rw (h, insert_monitoring) (refl, refl)
]

monitoring-Change :
    (env : Environment) (db : Tables) (p : Principal) (r : MonitoringEvidenceRequest)
    → Change env db (record_monitoring_evidence env r p db).1
unfolding record_monitoring_evidence write_monitoring
monitoring-Change env db p r =
    stored (checked_monitoring env r p db) (checked_monitoring-Same env r p db)
  where
    stored :
        (x : Result (GovernanceMonitoringEvidence × Tables))
        → Ensures (Same db) x
        → Change env db (write_monitoring env r db x).1
    stored (ok (row, db')) same = rw same (
        let k : Kept db row (insert_monitoring env r row db) =
          insert_monitoring-Kept env r row db in
        unchanged (k.0) (k.1))
    stored (err e) same = unchanged refl refl

pub Step-Change :
    (env : Environment) (before after : Tables) → Step env before after → Change env before after
Step-Change env before after (approving now v p r e) =
    rw e (Change-at env now v before _ (approve-Change (at now v env) before p r))
Step-Change env before after (transitioning now v p r e) =
    rw e (Change-at env now v before _ (transition-Change (at now v env) before p r))
Step-Change env before after (rolling_back now v p r e) =
    rw e (Change-at env now v before _ (roll_back-Change (at now v env) before p r))
Step-Change env before after (monitoring_by now v p r e) =
    rw e (Change-at env now v before _ (monitoring-Change (at now v env) before p r))
