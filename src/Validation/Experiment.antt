-- ===== src/Validation/Experiment.antt =====
-- What governance reads of an experiment's manifest and evidence: the types of
-- internal/validation/types.go, ml_evidence.go, walkforward.go and repository.go, and the
-- repository's operations as an interface.
use trading_bot.Base.{ℕ, Bool, ◌&&◌, Option, List, String, str_eq}
use trading_bot.Base.Float.{Float}
use trading_bot.Base.Statements.{Outcome}
use trading_bot.Validation.Policy.{AuthorityPolicyEnvelope}

pub record VersionRef : Type 0 where
  pub id : String
  pub version : String
  pub implementation_digest : String
  pub config_digest : String

abbrev pub eq_version_ref : VersionRef → VersionRef → Bool
eq_version_ref a b =
    str_eq a.id b.id
    && str_eq a.version b.version
    && str_eq a.implementation_digest b.implementation_digest
    && str_eq a.config_digest b.config_digest

pub record Threshold : Type 0 where
  pub metric : String
  pub op : String
  pub value : Float

pub record ModelAuthority : Type 0 where
  pub version : String
  pub class : String
  pub model_digest : String
  pub training_manifest : String

unfoldable pub can_hold_authority : ModelAuthority → Bool
can_hold_authority m = str_eq m.class "promotable_candidate"

pub record ExperimentManifest : Type 0 where
  pub id : String
  pub study_type : String
  pub exploratory : Bool
  pub candidate : VersionRef
  pub baseline : VersionRef
  pub model : Option ModelAuthority
  pub composite_policy : String
  pub authority_policy : AuthorityPolicyEnvelope
  pub dataset_manifest_hash : String
  pub rollback_thresholds : List Threshold
  -- In microseconds, by the state's name; 0 where the map has no entry.
  pub required_elapsed : String → ℕ

-- The folds of a result by the digest of `FoldResultsDigest`, which may fail.
pub record WalkForwardResult : Type 0 where
  pub fold_digest : Option String
  pub passed : Bool

pub record PersistedEvidence : Type 0 where
  pub id : String
  pub experiment_id : String
  pub status : String
  pub result : Option WalkForwardResult
  pub created_at : ℕ

pub record MlEvidence : Type 0 where
  pub fold_evidence_digest : String
  pub artifact_digest : String
  pub training_manifest_digest : String
  pub baseline_strategy : VersionRef
  pub baseline_policy_digest : String
  pub dataset_manifest_digest : String
  pub passed : Bool

-- `validation.Repository`, as governance uses it; E is its type of errors. `evidence_digest` is the
-- column of that name in the table of evidence.
pub record Repository (E : Type 0) : Type 0 where
  pub load_manifest : String → Outcome E ExperimentManifest
  pub load_evidence : String → Outcome E PersistedEvidence
  pub load_ml_evidence : String → Outcome E MlEvidence
  pub evidence_digest : String → Outcome E String
