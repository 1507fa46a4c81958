-- ===== src/TradingCore/Rollout.antt =====
-- `ResolveModelAuthority` of internal/tradingcore/rollout.go.
use trading_bot.Base.{◌≡◌, Bool, true, false, not, ◌&&◌, ◌||◌, String, if◌then◌else◌, str_eq, arith}
use trading_bot.Base.{trim_text, lower_text}

-- The execution modes; one that the source does not list is `other_mode`.
pub data ExecutionMode : Type 0 where
  research shadow backtest live_dry_run paper limited_live full_live other_mode : ExecutionMode

pub record ModelAuthority : Type 0 where
  pub use_model : Bool
  pub observe : Bool
  pub blocked : Bool
  pub reason : String

-- The rollout states that authorize a model in a mode.
unfoldable pub is_authorized : ExecutionMode → String → Bool
is_authorized paper state =
    str_eq state "paper" || str_eq state "limited_live" || str_eq state "full_live"
is_authorized limited_live state = str_eq state "limited_live" || str_eq state "full_live"
is_authorized full_live state = str_eq state "full_live"
is_authorized _ state = false

-- The body, on the normalized state and fallback.
unfoldable pub authority_of : Bool → Bool → Bool → ModelAuthority
authority_of authorized has_fallback model_available =
    let result : ModelAuthority = record {
      use_model = false;
      observe = model_available;
      blocked = false;
      reason = "";
    } in
    if authorized && model_available
    then record result { use_model = true }
    else if authorized && not model_available && not has_fallback
    then record result { blocked = true; reason = "model_unavailable_no_fallback" }
    else if not authorized && not has_fallback
    then record result { blocked = true; reason = "rollout_not_authorized_no_fallback" }
    else result

unfoldable pub resolve_model_authority : ExecutionMode → String → String → Bool → ModelAuthority
resolve_model_authority mode rollout_state fallback model_available =
    authority_of (is_authorized mode (lower_text (trim_text rollout_state)))
      (str_eq (lower_text (trim_text fallback)) "rule_based") model_available

-- A model is used exactly if it is available and its rollout state authorizes the mode, and the
-- run is blocked exactly if the model is not used and there is no rule-based fallback; a blocked
-- run never uses the model.
pub resolve_model_authority-used :
    (mode : ExecutionMode) (rollout_state fallback : String) (model_available : Bool)
    → let r = resolve_model_authority mode rollout_state fallback model_available in
      (r.use_model ≡ (is_authorized mode (lower_text (trim_text rollout_state)) && model_available))
      × (r.blocked
          ≡ (not r.use_model && not (str_eq (lower_text (trim_text fallback)) "rule_based")))
unfolding resolve_model_authority authority_of
resolve_model_authority-used mode rollout_state fallback model_available = ground arith

-- A wider mode needs more: where a state authorizes limited live it authorizes paper, and where it
-- authorizes full live it authorizes limited live; research and shadow are never authorized.
pub is_authorized-nested :
    (state : String)
    → (is_authorized full_live state ≡ true → is_authorized limited_live state ≡ true)
      × (is_authorized limited_live state ≡ true → is_authorized paper state ≡ true)
      × (is_authorized research state ≡ false)
      × (is_authorized shadow state ≡ false)
unfolding is_authorized
is_authorized-nested state = ground arith
