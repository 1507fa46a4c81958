-- ===== src/TradingCore/Examples.antt =====
-- The exits and the model authority at single inputs (internal/tradingcore).
use trading_bot.Base.{◌≡◌, refl, true, false, not, ◌&&◌, str_eq, all}
use trading_bot.TradingCore.Exits.{
  ExitTriggerInput, ordered, reasons, evaluate_exit_lifecycle, evaluate_exit_lifecycle-reasons,
  evaluate_exit_lifecycle-at_loss, is_protective_reason, first_or,
}
use trading_bot.TradingCore.Rollout.{
  paper, full_live, limited_live, research, shadow, resolve_model_authority,
  resolve_model_authority-used, is_authorized, is_authorized-nested,
}
use trading_bot.Base.{trim_text, lower_text, is_nil}

abbrev losing : ExitTriggerInput
losing = record {
  hard_stop = false;
  take_profit = false;
  atr_trailing = true;
  percent_trailing = false;
  fallback_stop = true;
  fallback_take_profit = false;
  time_stop = true;
  signal = true;
  at_loss = true;
  allow_sell_at_loss = false;
}

evaluate_exit_lifecycle-reasons_example : evaluate_exit_lifecycle losing ≡ record {
  exit = not (is_nil (reasons losing (ordered losing)));
  reason = first_or "" (reasons losing (ordered losing));
  simultaneous = reasons losing (ordered losing);
}
evaluate_exit_lifecycle-reasons_example = evaluate_exit_lifecycle-reasons losing

evaluate_exit_lifecycle-at_loss_example :
    all is_protective_reason (evaluate_exit_lifecycle losing).simultaneous ≡ true
evaluate_exit_lifecycle-at_loss_example = evaluate_exit_lifecycle-at_loss losing refl refl

resolve_model_authority-used_example :
    let r = resolve_model_authority paper "Full_Live" "none" true in
    (r.use_model ≡ (is_authorized paper (lower_text (trim_text "Full_Live")) && true))
    × (r.blocked ≡ (not r.use_model && not (str_eq (lower_text (trim_text "none")) "rule_based")))
resolve_model_authority-used_example = resolve_model_authority-used paper "Full_Live" "none" true

is_authorized-nested_example :
    (is_authorized full_live "full_live" ≡ true → is_authorized limited_live "full_live" ≡ true)
    × (is_authorized limited_live "full_live" ≡ true → is_authorized paper "full_live" ≡ true)
    × (is_authorized research "full_live" ≡ false)
    × (is_authorized shadow "full_live" ≡ false)
is_authorized-nested_example = is_authorized-nested "full_live"
