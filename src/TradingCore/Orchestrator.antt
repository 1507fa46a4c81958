-- ===== src/TradingCore/Orchestrator.antt =====
-- `Run` of internal/tradingcore/orchestrator.go: a decision, its risk check, the broker and the
-- ledger, in this order. Every dependency acts on a world of its own choice; E is its errors.
use trading_bot.Base.{Bool, true, false, not, ◌&&◌, Option, none, some, List, [], ◌∷◌, String}
use trading_bot.Base.Statements.{Outcome, ok, err}
use trading_bot.TradingCore.Contracts.{OrderIntent, OrderRejection, BrokerBatchOutcome}

pub data RunStage : Type 0 where
  source strategy risk broker ledger trace : RunStage

pub record NoAction : Type 0 where
  pub instrument_id : String
  pub code : String

pub record StrategyResult : Type 0 where
  pub intents : List OrderIntent
  pub no_actions : List NoAction

pub record RiskDecision : Type 0 where
  pub approved : List OrderIntent
  pub rejected : List OrderRejection

pub record Observation : Type 0 where
  pub stage : String
  pub code : String
  pub order_id : String
  pub metadata : List (String × String)

pub record RunResult : Type 0 where
  pub strategy : StrategyResult
  pub risk : RiskDecision
  pub broker : BrokerBatchOutcome
  pub trace : String

-- The dependencies that are missing, or an error of a stage, after which an order may have been
-- sent or not.
pub data RunError (E : Type 0) : Type 0 where
  dependencies_required : RunError E
  run_error : RunStage → Bool → E → RunError E

abbrev pub is_before_broker : RunStage → Bool
is_before_broker source = true
is_before_broker strategy = true
is_before_broker risk = true
is_before_broker _ = false

-- `IsPreSubmissionFailure`
abbrev pub is_pre_submission_failure : {E : Type 0} → RunError E → Bool
is_pre_submission_failure dependencies_required = false
is_pre_submission_failure (run_error stage side_effects e) =
    not side_effects && is_before_broker stage

-- A call changes the world W, whether it fails or not.
abbrev pub Call : Type 0 → Type 0 → Type 0 → Type 0
Call W E A = W → Outcome E A × W

-- S is the snapshot of a decision, P the policy.
pub record Orchestrator (W E S P : Type 0) : Type 0 where
  pub source : Option (Call W E (S × P))
  pub strategy : Option (S → Call W E StrategyResult)
  pub risk : Option (List OrderIntent → S → P → Call W E RiskDecision)
  pub broker : Option (List OrderIntent → Call W E BrokerBatchOutcome)
  pub ledger : Option (List OrderIntent → BrokerBatchOutcome → Call W E (Unit {0}))
  -- Its errors are dropped; without one, nothing is observed.
  pub observer : Option (Observation → W → W)
  -- `stableRunTrace`, the JSON of the run.
  pub trace : S → StrategyResult → RiskDecision → BrokerBatchOutcome → Outcome E String

-- `if err != nil { return RunResult{}, runError(stage, sideEffects, err) }`
abbrev pub run_stage :
    {W E A B : Type 0}
    → RunStage
    → Bool
    → Outcome E A × W
    → (A → Call W (RunError E) B)
    → Outcome (RunError E) B × W
run_stage stage side_effects (ok a, w) k = k a w
run_stage stage side_effects (err e, w) k = (err (run_error stage side_effects e), w)

abbrev pub observe_all :
    {W A : Type 0} → Option (Observation → W → W) → (A → Observation) → List A → W → W
observe_all o f [] w = w
observe_all none f (x ∷ xs) w = w
observe_all (some g) f (x ∷ xs) w = observe_all (some g) f xs (g (f x) w)

abbrev pub of_no_action : NoAction → Observation
of_no_action n = record {
  stage = "strategy";
  code = n.code;
  order_id = "";
  metadata = ("instrument", n.instrument_id) ∷ [];
}

abbrev pub of_rejection : String → OrderRejection → Observation
of_rejection stage r = record { stage = stage; code = r.code; order_id = r.order_id; metadata = [] }

-- What the run decides before the broker is called.
pub record Decision (S : Type 0) : Type 0 where
  pub snapshot : S
  pub strategy : StrategyResult
  pub risk : RiskDecision

-- What follows the decision.
abbrev pub go_on :
    {W E S : Type 0}
    → Outcome (RunError E) (Decision S) × W
    → (Decision S → Call W (RunError E) RunResult)
    → Outcome (RunError E) RunResult × W
go_on (ok d, w) k = k d w
go_on (err f, w) k = (err f, w)

module _ {W E S P : Type 0} where
  unfoldable pub decide :
      Call W E (S × P)
      → (S → Call W E StrategyResult)
      → (List OrderIntent → S → P → Call W E RiskDecision)
      → Option (Observation → W → W)
      → Call W (RunError E) (Decision S)
  decide source' strategy' risk' observer w = run_stage source false (source' w) λ x w.
      run_stage strategy false (strategy' x.0 w) λ chosen w.
        run_stage risk false
          (risk' chosen.intents x.0 x.1 (observe_all observer of_no_action chosen.no_actions w))
          λ decided w. (
            ok (record { snapshot = x.0; strategy = chosen; risk = decided }),
            observe_all observer (of_rejection "risk") decided.rejected w,
          )

  unfoldable pub submit :
      (List OrderIntent → Call W E BrokerBatchOutcome)
      → (List OrderIntent → BrokerBatchOutcome → Call W E (Unit {0}))
      → Orchestrator W E S P
      → Decision S
      → Call W (RunError E) RunResult
  submit broker' ledger' o d w = run_stage broker true (broker' d.risk.approved w) λ answer w.
      run_stage ledger true
        (ledger' d.risk.approved answer
          (observe_all o.observer (of_rejection "broker") answer.rejected w))
        λ u w.
          run_stage trace true (o.trace d.snapshot d.strategy d.risk answer, w)
            λ text w. (
              ok (record { strategy = d.strategy; risk = d.risk; broker = answer; trace = text }),
              w,
            )

  unfoldable pub run : Orchestrator W E S P → Call W (RunError E) RunResult
  run o w = elim o.source [
    | none ↦ (err dependencies_required, w)
    | some source' ↦ elim o.strategy [
      | none ↦ (err dependencies_required, w)
      | some strategy' ↦ elim o.risk [
        | none ↦ (err dependencies_required, w)
        | some risk' ↦ elim o.broker [
          | none ↦ (err dependencies_required, w)
          | some broker' ↦ elim o.ledger [
            | none ↦ (err dependencies_required, w)
            | some ledger' ↦
                go_on (decide source' strategy' risk' o.observer w) (submit broker' ledger' o)
          ]
        ]
      ]
    ]
  ]
