-- ===== src/Cutover/Flags.antt =====
-- The flags of internal/cutover/flags.go, their parsing and their validation.
use trading_bot.Base.{
  Bool, not, ◌&&◌, ◌||◌, Option, none, some, List, [], ◌∷◌, String, if◌then◌else◌, str_eq, is_empty,
  any,
}
use trading_bot.Base.{trim_text, lower_text}

pub record Flags : Type 0 where
  pub schema_version : String
  pub ledger_authority : String
  pub shared_engine : String
  pub new_backtest : String
  pub point_in_time : String
  pub candidate_strategy : String
  pub dual_run : String
  pub stage07_context : String

-- The errors of `Validate`, one for each return of it.
pub data Fault : Type 0 where
  unsupported_schema : Fault
  malformed : String → Fault
  dual_run_without_engine candidate_without_engine candidate_paper_without_paper : Fault
  paper_without_ledger universe_without_engine live_without_authority live_modes_differ : Fault

abbrev pub flag_schema_version : String
flag_schema_version = "stage08-flags-v1"

abbrev pub safe_flags : Flags
safe_flags = record {
  schema_version = flag_schema_version;
  ledger_authority = "legacy";
  shared_engine = "off";
  new_backtest = "off";
  point_in_time = "off";
  candidate_strategy = "off";
  dual_run = "off";
  stage07_context = "";
}

unfoldable pub is_live : Flags → Bool
is_live f =
    str_eq f.shared_engine "limited_live"
    || str_eq f.shared_engine "full_live"
    || str_eq f.candidate_strategy "limited_live"
    || str_eq f.candidate_strategy "full_live"

unfoldable pub capital_enabled : Flags → Bool
capital_enabled f = str_eq f.shared_engine "paper" || is_live f

abbrev pub is_allowed : String → List String → Bool
is_allowed value values = any (str_eq value) values

-- The table of checks: the first value that is not allowed.
abbrev pub first_malformed : List (String × String × List String) → Option Fault
first_malformed [] = none
first_malformed (c ∷ cs) =
    let rest = first_malformed cs in if is_allowed c.1 c.2 then rest else some (malformed c.0)

unfoldable pub check_values : Flags → Option Fault
check_values f = first_malformed (
    ("STAGE08_LEDGER_AUTHORITY", f.ledger_authority, "legacy" ∷ "compare" ∷ "authoritative" ∷ [])
    ∷ (
      "STAGE08_SHARED_ENGINE",
      f.shared_engine,
      "off" ∷ "shadow" ∷ "paper" ∷ "limited_live" ∷ "full_live" ∷ [],
    )
    ∷ ("STAGE08_NEW_BACKTEST", f.new_backtest, "off" ∷ "research" ∷ [])
    ∷ ("STAGE08_POINT_IN_TIME_UNIVERSE", f.point_in_time, "off" ∷ "research" ∷ "authoritative" ∷ [])
    ∷ (
      "STAGE08_CANDIDATE_STRATEGY",
      f.candidate_strategy,
      "off" ∷ "research" ∷ "shadow" ∷ "paper" ∷ "limited_live" ∷ "full_live" ∷ [],
    )
    ∷ ("STAGE08_DUAL_RUN", f.dual_run, "off" ∷ "observe" ∷ [])
    ∷ [])

-- The last checks, for live modes.
unfoldable pub check_live : Flags → Option Fault
check_live f =
    if not (is_live f)
    then none
    else if not (str_eq f.ledger_authority "authoritative")
        || not (str_eq f.point_in_time "authoritative")
        || is_empty f.stage07_context
    then some live_without_authority
    else if not (str_eq f.shared_engine f.candidate_strategy)
    then some live_modes_differ
    else none

-- The checks between flags.
unfoldable pub check_modes : Flags → Option Fault
check_modes f =
    if str_eq f.dual_run "observe" && str_eq f.shared_engine "off"
    then some dual_run_without_engine
    else if not (str_eq f.candidate_strategy "off")
        && not (str_eq f.candidate_strategy "research")
        && (str_eq f.shared_engine "off" || str_eq f.point_in_time "off")
    then some candidate_without_engine
    else if str_eq f.candidate_strategy "paper" && not (str_eq f.shared_engine "paper")
    then some candidate_paper_without_paper
    else if str_eq f.shared_engine "paper" && not (str_eq f.ledger_authority "authoritative")
    then some paper_without_ledger
    else if str_eq f.point_in_time "authoritative" && str_eq f.shared_engine "off"
    then some universe_without_engine
    else check_live f

unfoldable pub validate : Flags → Option Fault
validate f =
    if not (str_eq f.schema_version flag_schema_version)
    then some unsupported_schema
    else elim (check_values f) [ some e ↦ some e | none ↦ check_modes f ]

abbrev pub value_of : String → List (String × String) → Option String
value_of key [] = none
value_of key (v ∷ vs) = if str_eq v.0 key then some v.1 else value_of key vs

-- `assign`: the value of the environment, trimmed and in lower case, or the safe one.
unfoldable pub assign : List (String × String) → String → String → String
assign values key safe = elim (value_of key values) [
  | none ↦ safe
  | some value ↦ trim_text (lower_text value)
]

unfoldable pub parse_flags : List (String × String) → Flags
parse_flags values = record {
  schema_version = assign values "STAGE08_FLAG_SCHEMA_VERSION" safe_flags.schema_version;
  ledger_authority = assign values "STAGE08_LEDGER_AUTHORITY" safe_flags.ledger_authority;
  shared_engine = assign values "STAGE08_SHARED_ENGINE" safe_flags.shared_engine;
  new_backtest = assign values "STAGE08_NEW_BACKTEST" safe_flags.new_backtest;
  point_in_time = assign values "STAGE08_POINT_IN_TIME_UNIVERSE" safe_flags.point_in_time;
  candidate_strategy = assign values "STAGE08_CANDIDATE_STRATEGY" safe_flags.candidate_strategy;
  dual_run = assign values "STAGE08_DUAL_RUN" safe_flags.dual_run;
  stage07_context = elim (value_of "STAGE08_STAGE07_CONTEXT" values) [
    | none ↦ ""
    | some value ↦ trim_text value
  ];
}

pub data Refusal : Type 0 where
  unknown_mode exceeds_authority : Refusal

-- The modes that `AuthorizeRuntimeSetting` allows, as the error that it returns.
unfoldable pub authorize_mode : String → Flags → Option Refusal
authorize_mode mode f =
    if str_eq mode "legacy"
    then none
    else if str_eq mode "shadow_compare"
    then (if str_eq f.dual_run "observe" && not (str_eq f.shared_engine "off")
        then none
        else some exceeds_authority)
    else if str_eq mode "shared"
    then (if str_eq f.shared_engine "paper" && str_eq f.ledger_authority "authoritative"
        then none
        else some exceeds_authority)
    else some unknown_mode

unfoldable pub authorize_runtime_setting : String → Flags → Option Refusal
authorize_runtime_setting engine_mode f = authorize_mode (lower_text (trim_text engine_mode)) f
