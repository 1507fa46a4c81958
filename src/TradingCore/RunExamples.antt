-- ===== src/TradingCore/RunExamples.antt =====
-- Two runs of the orchestrator (internal/tradingcore/orchestrator.go): the world is a count of calls.
use trading_bot.TradingCore.RunLaws.{run-IsRecorded, served, run-pre_submission}
use trading_bot.Base.{ℕ, suc, ◌≡◌, refl, false, none, some, [], String}
use trading_bot.Base.Statements.{ok, err}
use trading_bot.TradingCore.Contracts.{BrokerBatchOutcome, OutcomeCompleteness}
use trading_bot.TradingCore.Orchestrator.{
  Orchestrator, Call, run, decide, submit, RunResult, run_error, risk,
}

abbrev answer : BrokerBatchOutcome
answer = record { completeness = OutcomeCompleteness.complete; accepted = []; rejected = [] }

abbrev counted : {A : Type 0} → A → Call ℕ String A
counted a n = (ok a, suc n)

abbrev refused : {A : Type 0} → String → Call ℕ String A
refused e n = (err e, suc n)

abbrev runner : Orchestrator ℕ String ℕ ℕ
runner = record {
  source = some (counted (1, 2));
  strategy = some (λ s. counted (record { intents = []; no_actions = [] }));
  risk = some (λ is s p. counted (record { approved = []; rejected = [] }));
  broker = none;
  ledger = none;
  observer = none;
  trace = λ s c r b. ok "trace";
}

abbrev cautious : Orchestrator ℕ String ℕ ℕ
cautious = record runner { risk = some (λ is s p. refused "policy") }

stopped :
    run (served cautious (λ is. counted answer) (λ is o. counted tt)) 0
    ≡ (err (run_error risk false "policy"), 3)
unfolding run decide submit
stopped = refl

run-pre_submission_example :
    run (served cautious (λ is. refused "down") (λ is o. refused "down")) 0
    ≡ (err (run_error risk false "policy"), 3)
run-pre_submission_example =
    run-pre_submission cautious (λ is. counted answer) (λ is. refused "down") (λ is o. counted tt)
      (λ is o. refused "down") 0 3 (run_error risk false "policy") stopped refl

abbrev finished : RunResult
finished = record {
  strategy = record { intents = []; no_actions = [] };
  risk = record { approved = []; rejected = [] };
  broker = answer;
  trace = "trace";
}

completed : run (served runner (λ is. counted answer) (λ is o. counted tt)) 0 ≡ (ok finished, 5)
unfolding run decide submit
completed = refl

run-IsRecorded_example :
    (before : ℕ) × (between : ℕ) × ((counted answer before).0 ≡ ok answer)
    × (counted tt between ≡ (ok tt, 5))
run-IsRecorded_example =
    run-IsRecorded runner (λ is. counted answer) (λ is o. counted tt) 0 5 finished completed
