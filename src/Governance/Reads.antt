-- ===== src/Governance/Reads.antt =====
-- The checks of governance change no table, and what they find
-- (internal/governance/service.go).
use trading_bot.Governance.Monitoring.{checked_monitoring, MonitoringEvidenceRequest}
use trading_bot.Governance.Rollback.{check_trigger, RollbackRequest}
use trading_bot.Governance.Transition.{
  TransitionRequest, transition_evidence, check_approval, check_elapsed, find_approval,
}
use trading_bot.Governance.Approve.{approval_evidence, ApprovalRequest}
use trading_bot.Governance.Rollout.{State, Principal}
use trading_bot.Governance.Store.{Result, Statement}
use trading_bot.Validation.Experiment.{ExperimentManifest, PersistedEvidence}
use trading_bot.Governance.Environment.{
  Environment, load_monitoring_evidence, bound_evidence, verify_ml_evidence, policy_for,
}
use trading_bot.Governance.Rows.{Tables, GovernanceDeployment, Failure}
use trading_bot.Base.{
  ℕ, zero, suc, ◌+◌, ◌-◌, ◌*◌, ◌≤◌, ◌<◌, ◌≡◌, ◌≢◌, ◌⊎◌, refl, sym, ap, ◌∙◌, Bool, true, false, not,
  ◌&&◌, ◌||◌, Option, none, some, List, [], ◌∷◌, ◌++◌, String, if◌then◌else◌, str_eq, eq_iff,
  eq_refl, inl, inr, Bool-cases, Option-cases, ◌==◌, ltb, leb, arith, ℤ, pos, neg, ◌+ℤ◌, ◌-ℤ◌,
  int_laws, is_empty, any, all, eqb_ℤ,
}
use trading_bot.Base.Ensures.{
  Ensures, Ensures-then, Ensures-or_fail, Ensures-lift, Ensures-guard, Ensures-found, Ensures-if,
}
use trading_bot.Base.Statements.{ok, err, continue, lift, guard, ◌>>=◌}

-- A statement that reads.
abbrev pub Same : {A : Type 0} → Tables → A → Tables → Type 0
Same db a db' = db' ≡ db

module _ {A B : Type 0} where
  -- After a statement that reads, the same tables.
  pub Ensures-Same :
      (Q : B → Tables → Type 0) (m : Statement A) (f : A → Statement B) (db : Tables)
      → Ensures (Same db) (m db)
      → ((a : A) → m db ≡ ok (a, db) → Ensures Q (f a db))
      → Ensures Q ((m >>= f) db)
  Ensures-Same Q m f db h k = read (m db) refl h
    where
      read : (r : Result (A × Tables)) → m db ≡ r → Ensures (Same db) r → Ensures Q (continue r f)
      read (ok (a, db')) e h = rw h (k a (rw (e, h) refl))
      read (err x) e h = tt

pub guard-Same : (b : Bool) (e : Failure) (db : Tables) → Ensures (Same db) (guard b e db)
guard-Same true e db = refl
guard-Same false e db = tt

pub lift-Same : {A : Type 0} (r : Result A) (db : Tables) → Ensures (Same db) (lift r db)
lift-Same (ok a) db = refl
lift-Same (err e) db = tt

pub ruleset reads =
    (Ensures-lift, Ensures-found, Ensures-guard, Ensures-or_fail, guard-Same, lift-Same, refl)

module _ (env : Environment) where
  pub bound_evidence-Same :
      (i j : String) (db : Tables) → Ensures (Same db) (bound_evidence env i j db)
  unfolding bound_evidence
  bound_evidence-Same i j db = search reads

  pub verify_ml_evidence-Same :
      (m : ExperimentManifest) (v : PersistedEvidence) (db : Tables)
      → Ensures (Same db) (verify_ml_evidence env m v db)
  unfolding verify_ml_evidence
  verify_ml_evidence-Same m v db = search reads

  pub policy_for-Same :
      (m : ExperimentManifest) (s : State) (db : Tables) → Ensures (Same db) (policy_for env m s db)
  policy_for-Same m s db = search reads

  pub load_monitoring_evidence-Same :
      (id : String) (db : Tables) → Ensures (Same db) (load_monitoring_evidence env id db)
  unfolding load_monitoring_evidence
  load_monitoring_evidence-Same id db = search reads

  pub approval_evidence-Same :
      (p : Principal) (r : ApprovalRequest) (db : Tables)
      → Ensures (Same db) (approval_evidence env p r db)
  unfolding approval_evidence
  approval_evidence-Same p r db =
      search (reads, Ensures-Same, bound_evidence-Same, verify_ml_evidence-Same) depth 14

  module _ (p : Principal) (r : TransitionRequest) where
    pub transition_evidence-Same :
        (db : Tables) → Ensures (Same db) (transition_evidence env p r db)
    unfolding transition_evidence
    transition_evidence-Same db =
        search (reads, Ensures-Same, Ensures-if, bound_evidence-Same, verify_ml_evidence-Same) depth
          14

    pub check_approval-Same :
        (m : ExperimentManifest) (v : PersistedEvidence) (c : Option GovernanceDeployment)
        (db : Tables)
        → Ensures (Same db) (check_approval env p r m v c db)
    unfolding check_approval find_approval
    check_approval-Same m v c db = search (reads, Ensures-if) depth 14

    pub check_elapsed-Same :
        (m : ExperimentManifest) (v : PersistedEvidence) (c : Option GovernanceDeployment)
        (db : Tables)
        → Ensures (Same db) (check_elapsed env p r m v c db)
    unfolding check_elapsed
    check_elapsed-Same m v c db =
        search (reads, Ensures-if, Ensures-Same, load_monitoring_evidence-Same) depth 14

  pub check_trigger-Same :
      (p : Principal) (r : RollbackRequest) (m : ExperimentManifest) (c : GovernanceDeployment)
      (db : Tables)
      → Ensures (Same db) (check_trigger env p r m c db)
  unfolding check_trigger
  check_trigger-Same p r m c db =
      search (reads, Ensures-Same, load_monitoring_evidence-Same) depth 14

  pub checked_monitoring-Same :
      (r : MonitoringEvidenceRequest) (p : Principal) (db : Tables)
      → Ensures (Same db) (checked_monitoring env r p db)
  unfolding checked_monitoring
  checked_monitoring-Same r p db = search reads depth 14
