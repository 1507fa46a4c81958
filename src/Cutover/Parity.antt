-- ===== src/Cutover/Parity.antt =====
-- internal/cutover/parity.go: the two shadow decisions of one captured context, their comparison,
-- and the checks of a stored comparison. A time is an instant in nanoseconds, an empty slice of
-- texts the nil one.
use trading_bot.Base.{
  lex, ℕ, suc, ◌-◌, Bool, true, false, not, ◌&&◌, Option, none, some, List, [], ◌∷◌, ◌++◌, String,
  if◌then◌else◌, str_eq, ◌==◌, ℤ, is_empty, length, ◌%◌,
}
use trading_bot.Base.{codes, chars, text_of}

pub record DecisionContext : Type 0 where
  pub context_id : String
  pub symbol_id : String
  pub venue_symbol : String
  pub decision_at : ℕ
  pub market_at : ℕ
  pub flag_schema_version : String
  pub engine_version : String
  pub strategy_version : String
  pub policy_version : String
  pub model_version : String
  pub dataset_version : String
  pub universe_version : String
  pub inputs : List (String × String)

pub record DecisionOutcome : Type 0 where
  pub action : String
  pub symbol_id : String
  pub venue_symbol : String
  pub side : String
  pub quantity : String
  pub notional : String
  pub rejection_code : String
  pub primary_exit_reason : String
  pub concurrent_exit_reasons : List String
  pub factor_trace : List (String × String)
  pub engine_version : String
  pub strategy_version : String
  pub policy_version : String
  pub model_version : String
  pub dataset_version : String
  pub universe_version : String
  pub signal_at : ℕ
  pub decision_at : ℕ

pub record ExpectedReason : Type 0 where
  pub code : String
  pub legacy_value : String
  pub candidate_value : String
  pub policy_version : String

pub record ComparisonPolicy : Type 0 where
  pub quantity_tolerance_bps : ℤ
  pub notional_tolerance_bps : ℤ
  pub expected : List ExpectedReason

pub record Comparison : Type 0 where
  pub context_id : String
  pub legacy_digest : String
  pub candidate_digest : String
  pub content_digest : String
  pub classification : String
  pub divergence_codes : List String
  pub expected_reasons : List String
  pub legacy : DecisionOutcome
  pub candidate : DecisionOutcome
  pub submit_attempts : ℕ

-- The errors of the package, one for each kind of return.
pub data ParityError : Type 0 where
  encoding context_mismatch legacy_failed candidate_failed : ParityError
  forbidden_submissions : ℕ → ParityError
  invalid_context invalid_classification legacy_digest_mismatch : ParityError
  candidate_digest_mismatch not_canonical content_mismatch policy_mismatch : ParityError

-- What the file takes from encoding/json, crypto/sha256 and fmt.Sscan, and the float64 operations.
pub record Library (F : Type 0) : Type 0 where
  pub context_json : DecisionContext → Option String
  pub context_of : String → Option DecisionContext
  pub outcome_json : DecisionOutcome → Option String
  pub content_json :
      String
      → DecisionOutcome
      → DecisionOutcome
      → List String
      → List String
      → String
      → Option String
  pub trace_json : List (String × String) → String
  pub digest : String → String
  pub scan : String → Option F
  pub abs : F → F
  pub max : F → F → F
  pub minus : F → F → F
  pub times : F → F → F
  pub over : F → F → F
  pub is_zero : F → Bool
  pub at_most : F → F → Bool
  pub of_int : ℤ → F

abbrev pub insert : String → List String → List String
insert x [] = x ∷ []
insert x (y ∷ ys) = if lex (codes x) (codes y) then x ∷ y ∷ ys else y ∷ insert x ys

-- sort.Strings
unfoldable pub sort : List String → List String
sort [] = []
sort (x ∷ xs) = insert x (sort xs)

abbrev pub same_texts : List String → List String → Bool
same_texts [] [] = true
same_texts (x ∷ xs) (y ∷ ys) = str_eq x y && same_texts xs ys
same_texts _ _ = false

abbrev pub joined : String → String → String → String
joined a sep b = text_of (chars a ++ (chars sep ++ chars b))

unfoldable pub postgres_time : ℕ → ℕ
postgres_time t = t - t % 1000

unfoldable pub stored_outcome : DecisionOutcome → DecisionOutcome
stored_outcome o = record o {
  signal_at = postgres_time o.signal_at;
  decision_at = postgres_time o.decision_at;
}

-- The bytes of an encoding whose error is dropped.
abbrev pub bytes : Option String → String
bytes none = ""
bytes (some s) = s

abbrev pub differs : String → String → String → List String
differs code x y = if str_eq x y then [] else code ∷ []

abbrev pub noted : String → Bool → List String
noted code b = if b then [] else code ∷ []

abbrev values_of : String → DecisionOutcome → Option String
values_of code o =
    if str_eq code "quantity"
    then some o.quantity
    else if str_eq code "notional"
    then some o.notional
    else if str_eq code "engine_version"
    then some o.engine_version
    else if str_eq code "strategy_version"
    then some o.strategy_version
    else if str_eq code "policy_version"
    then some o.policy_version
    else if str_eq code "model_version"
    then some o.model_version
    else if str_eq code "dataset_version"
    then some o.dataset_version
    else if str_eq code "universe_version"
    then some o.universe_version
    else none

abbrev is_value : Option String → String → Bool
is_value none v = false
is_value (some u) v = str_eq u v

unfoldable pub trusted_expected :
    String → DecisionOutcome → DecisionOutcome → List ExpectedReason → Option String
trusted_expected code a b [] = none
trusted_expected code a b (r ∷ rs) =
    if str_eq r.code code
      && is_value (values_of code a) r.legacy_value
      && is_value (values_of code b) r.candidate_value
      && not (is_empty r.policy_version)
    then some (
        joined r.code ":"
          (joined r.policy_version ":" (joined r.legacy_value ":" r.candidate_value)))
    else trusted_expected code a b rs

unfoldable pub reasons_of :
    DecisionOutcome → DecisionOutcome → List ExpectedReason → List String → List String
reasons_of a b rs [] = []
reasons_of a b rs (code ∷ codes') = elim (trusted_expected code a b rs) [
  | none ↦ reasons_of a b rs codes'
  | some reason ↦ reason ∷ reasons_of a b rs codes'
]

unfoldable pub classify : List String → List String → String
classify [] reasons = "match"
classify (c ∷ cs) reasons = if length reasons == suc (length cs) then "expected" else "unexplained"
