-- ===== src/Cutover/ParityRun.antt =====
-- `compareOutcomes`, `RunParity`, `VerifyComparison` and `VerifyComparisonWithPolicy` of
-- internal/cutover/parity.go. An adapter answers a context, and says how often it has called
-- `Submit` of the broker that denies; both are there. The length of a context's digest is that of its
-- characters.
use trading_bot.Base.{
  ℕ, ◌+◌, Bool, true, false, not, ◌&&◌, ◌||◌, Option, none, some, List, ◌++◌, String, if◌then◌else◌,
  str_eq, ◌==◌, ℤ, pos, is_empty, length,
}
use trading_bot.Base.Statements.{Outcome, ok, err}
use trading_bot.Base.{codes}
use trading_bot.Cutover.Parity.{
  DecisionContext, DecisionOutcome, ComparisonPolicy, Comparison, ParityError, Library, reasons_of,
  stored_outcome, postgres_time, same_texts, classify, sort, bytes, differs, joined, noted,
}

abbrev pub Adapter : Type 0
Adapter = DecisionContext → Outcome String DecisionOutcome × ℕ

abbrev pub known_class : String → Bool
known_class c = str_eq c "match" || str_eq c "expected" || str_eq c "unexplained"

-- The context as it is stored.
abbrev pub stored_context : DecisionContext → DecisionContext
stored_context c = record c {
  decision_at = postgres_time c.decision_at;
  market_at = postgres_time c.market_at;
}

module _ {F : Type 0} (lib : Library F) where
  abbrev close_to : ℤ → F → F → Bool
  close_to tolerance a b =
      (let base = lib.max (lib.abs a) (lib.abs b) in
        if lib.is_zero base
        then true
        else lib.at_most
            (lib.over (lib.times (lib.abs (lib.minus a b)) (lib.of_int (pos 10000))) base)
            (lib.of_int tolerance))

  unfoldable pub within_bps : String → String → ℤ → Bool
  within_bps x y tolerance = elim (lib.scan x) [
    | none ↦ str_eq x y
    | some a ↦ elim (lib.scan y) [ none ↦ false | some b ↦ close_to tolerance a b ]
  ]

  unfoldable pub compare_outcomes :
      DecisionOutcome → DecisionOutcome → ComparisonPolicy → List String
  compare_outcomes a b p =
      differs "action" a.action b.action
      ++ differs "symbol" (joined a.symbol_id "/" a.venue_symbol)
          (joined b.symbol_id "/" b.venue_symbol)
      ++ differs "side" a.side b.side
      ++ noted "quantity" (within_bps a.quantity b.quantity p.quantity_tolerance_bps)
      ++ noted "notional" (within_bps a.notional b.notional p.notional_tolerance_bps)
      ++ differs "rejection_code" a.rejection_code b.rejection_code
      ++ differs "primary_exit_reason" a.primary_exit_reason b.primary_exit_reason
      ++ noted "concurrent_exit_reasons"
          (same_texts (sort a.concurrent_exit_reasons) (sort b.concurrent_exit_reasons))
      ++ differs "factor_trace" (lib.trace_json a.factor_trace) (lib.trace_json b.factor_trace)
      ++ differs "engine_version" a.engine_version b.engine_version
      ++ differs "strategy_version" a.strategy_version b.strategy_version
      ++ differs "policy_version" a.policy_version b.policy_version
      ++ differs "model_version" a.model_version b.model_version
      ++ differs "dataset_version" a.dataset_version b.dataset_version
      ++ differs "universe_version" a.universe_version b.universe_version
      ++ noted "timestamps" ((a.signal_at == b.signal_at) && (a.decision_at == b.decision_at))

  unfoldable pub canonical_context_id : DecisionContext → Option String
  canonical_context_id c = elim (lib.context_json (stored_context (record c { context_id = "" }))) [
    | none ↦ none
    | some text ↦ some (lib.digest text)
  ]

  unfoldable pub compared :
      String → DecisionOutcome → DecisionOutcome → ComparisonPolicy → Comparison
  compared id left right policy =
      (let found = compare_outcomes left right policy in
        let reasons = reasons_of left right policy.expected found in
        let class = classify found reasons in
        record {
          context_id = id;
          legacy_digest = lib.digest (bytes (lib.outcome_json left));
          candidate_digest = lib.digest (bytes (lib.outcome_json right));
          content_digest =
              lib.digest (bytes (lib.content_json id left right (sort found) (sort reasons) class));
          classification = class;
          divergence_codes = sort found;
          expected_reasons = sort reasons;
          legacy = left;
          candidate = right;
          submit_attempts = 0;
        })

  abbrev pub answered :
      String
      → ComparisonPolicy
      → Outcome String DecisionOutcome × ℕ
      → Outcome String DecisionOutcome × ℕ
      → Outcome ParityError Comparison
  answered id policy (err e, n) right = err ParityError.legacy_failed
  answered id policy (ok l, n) (err e, m) = err ParityError.candidate_failed
  answered id policy (ok l, n) (ok r, m) =
      if n + m == 0
      then ok (compared id (stored_outcome l) (stored_outcome r) policy)
      else err (ParityError.forbidden_submissions (n + m))

  unfoldable pub clone : DecisionContext → Option DecisionContext
  clone c = elim (lib.context_json c) [
    | none ↦ none
    | some text ↦ elim (lib.context_of text) [
      | none ↦ none
      | some d ↦ some (record d { context_id = c.context_id })
    ]
  ]

  unfoldable pub run_parity :
      DecisionContext → Adapter → Adapter → ComparisonPolicy → Outcome ParityError Comparison
  run_parity given legacy candidate policy =
      (let captured = stored_context given in
        elim (canonical_context_id captured) [
          | none ↦ err ParityError.encoding
          | some id ↦
              if not (is_empty captured.context_id) && not (str_eq captured.context_id id)
              then err ParityError.context_mismatch
              else elim (clone (record captured { context_id = id })) [
                | none ↦ err ParityError.encoding
                | some copy ↦ answered id policy (legacy copy) (candidate copy)
              ]
        ])

  abbrev pub is_digest_of : Option String → String → Bool
  is_digest_of none d = false
  is_digest_of (some text) d = str_eq d (lib.digest text)

  unfoldable pub verify_comparison : Comparison → Option ParityError
  verify_comparison c =
      if not (length (codes c.context_id) == 64) || not (c.submit_attempts == 0)
      then some ParityError.invalid_context
      else if not (known_class c.classification)
      then some ParityError.invalid_classification
      else if not (is_digest_of (lib.outcome_json c.legacy) c.legacy_digest)
      then some ParityError.legacy_digest_mismatch
      else if not (is_digest_of (lib.outcome_json c.candidate) c.candidate_digest)
      then some ParityError.candidate_digest_mismatch
      else if not (same_texts (sort c.divergence_codes) c.divergence_codes)
          || not (same_texts (sort c.expected_reasons) c.expected_reasons)
      then some ParityError.not_canonical
      else if not (
          is_digest_of
            (lib.content_json c.context_id c.legacy c.candidate (sort c.divergence_codes)
              (sort c.expected_reasons) c.classification)
            c.content_digest)
      then some ParityError.content_mismatch
      else none

  unfoldable pub verify_comparison_with_policy : Comparison → ComparisonPolicy → Option ParityError
  verify_comparison_with_policy c policy = elim (verify_comparison c) [
    | some e ↦ some e
    | none ↦
        (let found = compare_outcomes c.legacy c.candidate policy in
          let reasons = reasons_of c.legacy c.candidate policy.expected found in
          if not (str_eq (classify found reasons) c.classification)
            || not (same_texts (sort found) c.divergence_codes)
            || not (same_texts (sort reasons) c.expected_reasons)
          then some ParityError.policy_mismatch
          else none)
  ]
