-- ===== src/Cutover/ParityExamples.antt =====
-- Two decisions of one context, compared (internal/cutover/parity.go): once different, once equal.
use trading_bot.Base.{
  ℕ, ◌+◌, ◌-◌, ◌*◌, ◌≡◌, refl, none, some, [], ◌∷◌, String, if◌then◌else◌, ◌==◌, leb, pos, length,
}
use trading_bot.Base.Statements.{ok}
use trading_bot.Base.{codes}
use trading_bot.Cutover.Parity.{
  DecisionContext, DecisionOutcome, ComparisonPolicy, Comparison, Library, classify, reasons_of,
  sort, stored_outcome, postgres_time,
}
use trading_bot.Cutover.ParityRun.{
  Adapter, run_parity, compared, clone, verify_comparison, verify_comparison_with_policy,
  compare_outcomes, canonical_context_id, within_bps,
}
use trading_bot.Cutover.ParityVerified.{run_parity-verified, run_parity-no_submission}
use trading_bot.Cutover.ParityAccepted.{accepted-match}

abbrev captured : DecisionContext
captured = record {
  context_id = "";
  symbol_id = "btc";
  venue_symbol = "BTCUSDT";
  decision_at = 5000000;
  market_at = 4000000;
  flag_schema_version = "stage08-flags-v1";
  engine_version = "e1";
  strategy_version = "s1";
  policy_version = "p1";
  model_version = "m1";
  dataset_version = "d1";
  universe_version = "u1";
  inputs = [];
}

abbrev decided : String → DecisionOutcome
decided action = record {
  action = action;
  symbol_id = "btc";
  venue_symbol = "BTCUSDT";
  side = "buy";
  quantity = "1";
  notional = "";
  rejection_code = "";
  primary_exit_reason = "";
  concurrent_exit_reasons = [];
  factor_trace = [];
  engine_version = "e1";
  strategy_version = "s1";
  policy_version = "p1";
  model_version = "m1";
  dataset_version = "d1";
  universe_version = "u1";
  signal_at = 4000000;
  decision_at = 5000000;
}

abbrev digest_text : String
digest_text = "0123456789abcdef0123456789abcdef0123456789abcdef0123456789abcdef"

-- A library over the naturals, whose numbers are the lengths of their texts.
abbrev library : Library ℕ
library = record {
  context_json = λ c. some c.symbol_id;
  context_of = λ t. some captured;
  outcome_json = λ o. some o.action;
  content_json = λ id a b codes' reasons class. some class;
  trace_json = λ t. "{}";
  digest = λ t. digest_text;
  scan = λ s. some (length (codes s));
  abs = λ a. a;
  max = λ a b. if leb a b then b else a;
  minus = λ a b. (a - b) + (b - a);
  times = λ a b. a * b;
  over = λ a b. a;
  is_zero = λ a. a == 0;
  at_most = λ a b. leb a b;
  of_int = λ z. 0;
}

abbrev tolerance : ComparisonPolicy
tolerance = record {
  quantity_tolerance_bps = pos 10;
  notional_tolerance_bps = pos 10;
  expected = [];
}

abbrev answers : String → Adapter
answers action c = (ok (decided action), 0)

abbrev different : Comparison
different = compared library digest_text (decided "enter") (decided "hold") tolerance

abbrev equal : Comparison
equal = compared library digest_text (decided "enter") (decided "enter") tolerance

different_run :
    run_parity library captured (answers "enter") (answers "hold") tolerance ≡ ok different
unfolding run_parity canonical_context_id clone stored_outcome postgres_time
different_run = refl

different_lists_action : different.divergence_codes ≡ "action" ∷ []
unfolding compared compare_outcomes within_bps sort
different_lists_action = refl

run_parity-verified_example : verify_comparison_with_policy library different tolerance ≡ none
unfolding compared
run_parity-verified_example =
    run_parity-verified library captured (answers "enter") (answers "hold") tolerance different
      (λ t. refl) different_run ("enter", "hold", different.classification, refl, refl, refl)

run_parity-no_submission_example :
    (copy : DecisionContext) × (l : DecisionOutcome) × (r : DecisionOutcome) × (answers "enter" copy
      ≡ (ok l, 0))
    × (answers "hold" copy ≡ (ok r, 0))
    × (different.legacy ≡ stored_outcome l)
    × (different.candidate ≡ stored_outcome r)
run_parity-no_submission_example =
    run_parity-no_submission library captured (answers "enter") (answers "hold") tolerance different
      different_run

accepted-match_example :
    (compare_outcomes library equal.legacy equal.candidate tolerance ≡ [])
    × (equal.divergence_codes ≡ [])
unfolding compared compare_outcomes within_bps sort classify reasons_of verify_comparison
    verify_comparison_with_policy
accepted-match_example = accepted-match library equal tolerance refl refl
