-- ===== src/TradingCore/Exits.antt =====
-- `EvaluateExitLifecycle` of internal/tradingcore/exits.go.
use trading_bot.Base.{
  ◌≡◌, refl, sym, ◌∙◌, Bool, true, false, not, ◌&&◌, ◌||◌, List, [], ◌∷◌, ◌++◌, String,
  if◌then◌else◌, str_eq, inl, inr, Bool-cases, arith, all, is_nil, append_nil, append_assoc,
}

pub record ExitTriggerInput : Type 0 where
  pub hard_stop : Bool
  pub take_profit : Bool
  pub atr_trailing : Bool
  pub percent_trailing : Bool
  pub fallback_stop : Bool
  pub fallback_take_profit : Bool
  pub time_stop : Bool
  pub signal : Bool
  pub at_loss : Bool
  pub allow_sell_at_loss : Bool

pub record ExitDecision : Type 0 where
  pub exit : Bool
  pub reason : String
  pub simultaneous : List String

pub record Trigger : Type 0 where
  pub active : Bool
  pub reason : String
  pub protective : Bool

abbrev trigger : Bool → String → Bool → Trigger
trigger active reason protective = record {
  active = active;
  reason = reason;
  protective = protective;
}

unfoldable pub ordered : ExitTriggerInput → List Trigger
ordered i =
    trigger i.hard_stop "stop_loss" true
    ∷ trigger i.take_profit "take_profit" true
    ∷ trigger i.atr_trailing "atr_trailing_stop" true
    ∷ trigger i.percent_trailing "trailing_stop" true
    ∷ trigger i.fallback_stop "stop_loss" true
    ∷ trigger i.fallback_take_profit "take_profit" true
    ∷ trigger i.time_stop "time_stop" false
    ∷ trigger i.signal "signal_exit" false
    ∷ []

-- The condition on which the loop continues.
abbrev pub is_skipped : ExitTriggerInput → Trigger → Bool
is_skipped i t = not t.active || (not t.protective && i.at_loss && not i.allow_sell_at_loss)

-- The rest of the loop's body.
unfoldable pub record_trigger : Trigger → ExitDecision → ExitDecision
record_trigger t d = record {
  exit = true;
  reason = if d.exit then d.reason else t.reason;
  simultaneous = d.simultaneous ++ t.reason ∷ [];
}

unfoldable pub evaluate_triggers : ExitTriggerInput → List Trigger → ExitDecision → ExitDecision
evaluate_triggers i [] d = d
evaluate_triggers i (t ∷ ts) d =
    evaluate_triggers i ts (if is_skipped i t then d else record_trigger t d)

unfoldable pub evaluate_exit_lifecycle : ExitTriggerInput → ExitDecision
evaluate_exit_lifecycle i =
    evaluate_triggers i (ordered i) (record { exit = false; reason = ""; simultaneous = [] })

-- The reasons of the triggers that are not skipped, in their order.
unfoldable pub reasons : ExitTriggerInput → List Trigger → List String
reasons i [] = []
reasons i (t ∷ ts) = let rest = reasons i ts in if is_skipped i t then rest else t.reason ∷ rest

abbrev pub first_or : String → List String → String
first_or d [] = d
first_or d (x ∷ xs) = x

abbrev decision : Bool → String → List String → ExitDecision
decision e r s = record { exit = e; reason = r; simultaneous = s }

same_decision :
    {e e' : Bool} {r r' : String} {s s' : List String}
    → e ≡ e'
    → r ≡ r'
    → s ≡ s'
    → decision e r s ≡ decision e' r' s'
same_decision p q k = rw (p, q, k)

evaluate_triggers-append :
    (i : ExitTriggerInput) (ts : List Trigger) (d : ExitDecision)
    → evaluate_triggers i ts d ≡ record {
      exit = d.exit || not (is_nil (reasons i ts));
      reason = if d.exit then d.reason else first_or d.reason (reasons i ts);
      simultaneous = d.simultaneous ++ reasons i ts;
    }
unfolding evaluate_triggers reasons record_trigger
evaluate_triggers-append i [] d =
    same_decision (ground arith) (ground arith) (sym (append_nil d.simultaneous))
evaluate_triggers-append i (t ∷ ts) d = elim (Bool-cases (is_skipped i t)) [
  | inl h ↦ rw h (evaluate_triggers-append i ts d)
  | inr h ↦ rw h (
      evaluate_triggers-append i ts (record_trigger t d)
      ∙ same_decision (ground arith) refl
          (append_assoc d.simultaneous (t.reason ∷ []) (reasons i ts)))
]

-- An exit is decided exactly when some trigger is not skipped; its reason is that of the first such
-- trigger in the order of the lifecycle, and all their reasons are kept in that order.
pub evaluate_exit_lifecycle-reasons :
    (i : ExitTriggerInput)
    → evaluate_exit_lifecycle i ≡ record {
      exit = not (is_nil (reasons i (ordered i)));
      reason = first_or "" (reasons i (ordered i));
      simultaneous = reasons i (ordered i);
    }
unfolding evaluate_exit_lifecycle
evaluate_exit_lifecycle-reasons i =
    evaluate_triggers-append i (ordered i) (record { exit = false; reason = ""; simultaneous = [] })

abbrev pub is_protective_reason : String → Bool
is_protective_reason r =
    str_eq r "stop_loss"
    || str_eq r "take_profit"
    || str_eq r "atr_trailing_stop"
    || str_eq r "trailing_stop"

-- A trigger that is not skipped has a protective reason.
abbrev AreProtective : ExitTriggerInput → List Trigger → Type 0
AreProtective i [] = Unit
AreProtective i (t ∷ ts) =
    (is_skipped i t ≡ false → is_protective_reason t.reason ≡ true) × AreProtective i ts

reasons-AreProtective :
    (i : ExitTriggerInput) (ts : List Trigger)
    → AreProtective i ts
    → all is_protective_reason (reasons i ts) ≡ true
unfolding reasons
reasons-AreProtective i [] h = refl
reasons-AreProtective i (t ∷ ts) h = elim (Bool-cases (is_skipped i t)) [
  | inl s ↦ rw s (reasons-AreProtective i ts h.1)
  | inr s ↦ rw (s, h.0 s, reasons-AreProtective i ts h.1) refl
]

ordered-AreProtective :
    (i : ExitTriggerInput)
    → i.at_loss ≡ true
    → i.allow_sell_at_loss ≡ false
    → AreProtective i (ordered i)
unfolding ordered
ordered-AreProtective i l a = (
  λ s. refl,
  (
    λ s. refl,
    (
      λ s. refl,
      (λ s. refl, (λ s. refl, (λ s. refl, (λ s. ground arith, (λ s. ground arith, tt))))),
    ),
  ),
)

-- A position at a loss that may not be sold at a loss leaves for a protective reason only: no time
-- stop and no signal is among the reasons of the decision.
pub evaluate_exit_lifecycle-at_loss :
    (i : ExitTriggerInput)
    → i.at_loss ≡ true
    → i.allow_sell_at_loss ≡ false
    → all is_protective_reason (evaluate_exit_lifecycle i).simultaneous ≡ true
evaluate_exit_lifecycle-at_loss i l a =
    rw (evaluate_exit_lifecycle-reasons i)
      (reasons-AreProtective i (ordered i) (ordered-AreProtective i l a))
