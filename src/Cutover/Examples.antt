-- ===== src/Cutover/Examples.antt =====
-- The flags' theorems at paper and at live flags (internal/cutover/flags.go).
use trading_bot.Base.{
  ◌≡◌, ◌⊎◌, refl, true, false, Option, none, some, String, str_eq, arith, lower_text, trim_text,
  trim_left, trim_right, is_space,
}
use trading_bot.Cutover.Flags.{
  Flags, validate, authorize_runtime_setting, capital_enabled, is_live, check_values,
  authorize_mode, check_modes, check_live,
}
use trading_bot.Cutover.Active.{ActiveState, activate_verified, activated}
use trading_bot.Cutover.FlagLaws.{
  IsVerified, IsAuthoritative, validate-live, validate-capital, activate_verified-IsVerified,
  authorize-shared,
}

abbrev paper_flags : Flags
paper_flags = record {
  schema_version = "stage08-flags-v1";
  ledger_authority = "authoritative";
  shared_engine = "paper";
  new_backtest = "off";
  point_in_time = "research";
  candidate_strategy = "paper";
  dual_run = "observe";
  stage07_context = "";
}

abbrev live_flags : Flags
live_flags = record {
  schema_version = "stage08-flags-v1";
  ledger_authority = "authoritative";
  shared_engine = "limited_live";
  new_backtest = "research";
  point_in_time = "authoritative";
  candidate_strategy = "limited_live";
  dual_run = "off";
  stage07_context = "model:7";
}

paper_valid : validate paper_flags ≡ none
unfolding validate check_values check_modes check_live is_live
paper_valid = refl

live_valid : validate live_flags ≡ none
unfolding validate check_values check_modes check_live is_live
live_valid = refl

live_is_live : is_live live_flags ≡ true
unfolding is_live
live_is_live = refl

paper_capital : capital_enabled paper_flags ≡ true
unfolding capital_enabled
paper_capital = refl

shared_mode : str_eq (lower_text (trim_text " Shared ")) "shared" ≡ true
unfolding lower_text trim_text trim_left trim_right is_space
shared_mode = refl

shared_authorized : authorize_runtime_setting " Shared " paper_flags ≡ none
unfolding authorize_runtime_setting authorize_mode lower_text trim_text trim_left trim_right
    is_space
shared_authorized = refl

abbrev inactive : ActiveState
inactive = record { flags = paper_flags; snapshot_id = ""; authority = ""; initialized = false }

abbrev digest : Flags → Option String
digest f = some f.shared_engine

validate-live_example : IsAuthoritative live_flags
validate-live_example = validate-live live_flags live_valid live_is_live

validate-capital_example : str_eq "authoritative" "authoritative" ≡ true
validate-capital_example = validate-capital paper_flags paper_valid paper_capital

authorize-shared_example :
    (is_live paper_flags ≡ false)
    × (capital_enabled paper_flags ≡ true)
    × (str_eq "authoritative" "authoritative" ≡ true)
authorize-shared_example =
    authorize-shared " Shared " paper_flags paper_valid shared_mode shared_authorized

activate_verified-IsVerified_example :
    let r = activate_verified digest paper_flags "paper" "verified" inactive in
    (r.1.initialized ≡ true → IsVerified digest r.1) × ((r.0 ≡ activated) ⊎ (r.1 ≡ inactive))
activate_verified-IsVerified_example =
    activate_verified-IsVerified digest paper_flags "paper" "verified" inactive (λ h. ground arith)
