-- ===== src/TradingCore/RiskAnswers.antt =====
-- Every intent of a batch is answered by `Evaluate` (internal/tradingcore/risk.go), once.
use mathlib.Core.Path.{subst}
use mathlib.Core.List.{map, map-append, perm_append_singleton, Perm, perm_middle}
use mathlib.Core.List.Perm
use trading_bot.Base.{
  ◌≡◌, refl, sym, ap, ◌∙◌, true, Option, none, some, List, [], ◌∷◌, ◌++◌, String, inl, inr,
  Bool-cases, Option-cases, arith, ℤ, is_empty, some-injective, append_assoc, append_nil,
}
use trading_bot.Base.Entries.{set_key}
use trading_bot.Base.Sorting.Permutes.{sort_stable-Perm}
use trading_bot.Base.Statements.{ok}
use trading_bot.Accounting.Decimal.{Decimal, is_positive}
use trading_bot.TradingCore.Contracts.{OrderIntent, OrderRejection}
use trading_bot.TradingCore.Orders.{validate_intent, first_fault, new_decision_batch, comes_before}
use trading_bot.TradingCore.Exact.{quantity_from_rat, rat_decimal}
use trading_bot.TradingCore.Portfolio.{RiskPolicy, PortfolioSnapshot, validate_policy}
use trading_bot.TradingCore.Risk.{Sizing, intent_price}
use trading_bot.TradingCore.RiskEngine.{
  Evaluation, settle_intent, evaluate_intent, evaluate_intents, approve_intent, opening, evaluate,
  decide_batch, RiskTrace, before_rejection,
}
use trading_bot.TradingCore.RiskRound.{size_intent, refuse}
use trading_bot.TradingCore.Orchestrator.{RiskDecision}
use trading_bot.TradingCore.OrderLaws.{
  revalidated, semantics_of, default_known, new_order_intent-ok, first_fault-append,
  first_fault-head,
}

quantity-positive : (q : _) (d : Decimal) → quantity_from_rat q ≡ some d → is_positive d ≡ true
unfolding quantity_from_rat
quantity-positive q d h = elim (Bool-cases (is_positive (rat_decimal q))) [
  | inl k ↦
      subst (λ (t : Decimal). is_positive t ≡ true)
        (some-injective _ d (rw (k, quantity_from_rat) at h)) k
  | inr k ↦ absurd (none-ne (rw (k, quantity_from_rat) at h))
]
  where
    none-ne : none ≡ some d → ⊥
    none-ne h = ground arith

-- The intents that are answered.
abbrev pub answered : List OrderIntent → List OrderRejection → List String
answered approved rejected =
    map (λ (i : OrderIntent). i.id) approved ++ map (λ (r : OrderRejection). r.order_id) rejected

answered-approved :
    (is : List OrderIntent) (rs : List OrderRejection) (i : OrderIntent)
    → Perm (answered (is ++ i ∷ []) rs) (i.id ∷ answered is rs)
answered-approved is rs i =
    subst (λ (t : List String). Perm t (i.id ∷ answered is rs))
      (sym (
        ap (λ (t : List String). t ++ map (λ (r : OrderRejection). r.order_id) rs)
          (map-append (λ (i : OrderIntent). i.id) is (i ∷ []))
        ∙ append_assoc (map (λ (i : OrderIntent). i.id) is) (i.id ∷ [])
            (map (λ (r : OrderRejection). r.order_id) rs)))
      (perm_middle (map (λ (i : OrderIntent). i.id) is)
        (map (λ (r : OrderRejection). r.order_id) rs))

answered-rejected :
    (is : List OrderIntent) (rs : List OrderRejection) (r : OrderRejection)
    → Perm (answered is (rs ++ r ∷ [])) (r.order_id ∷ answered is rs)
answered-rejected is rs r =
    subst (λ (t : List String). Perm t (r.order_id ∷ answered is rs))
      (sym (
        ap (λ (t : List String). map (λ (i : OrderIntent). i.id) is ++ t)
          (map-append (λ (r : OrderRejection). r.order_id) rs (r ∷ []))
        ∙ sym (
            append_assoc (map (λ (i : OrderIntent). i.id) is)
              (map (λ (r : OrderRejection). r.order_id) rs) (r.order_id ∷ []))))
      (perm_append_singleton r.order_id (answered is rs))

module _ (format_int : ℤ → String) where
  approve-valid :
      (policy : RiskPolicy) (d : Decimal) (i : OrderIntent)
      → validate_intent i ≡ none
      → is_positive d ≡ true
      → (validate_intent (approve_intent format_int policy d i) ≡ none)
        × ((approve_intent format_int policy d i).id ≡ i.id)
  unfolding approve_intent validate_intent
  approve-valid policy d i h k =
      (let costs = policy.execution_costs in
        let (j, e, v, n) =
          new_order_intent-ok
            (record i { quantity = d; versions = record (i.versions) { policy = policy.version } })
            (set_key "slippage_bps" (format_int costs.adverse_slippage_bps) (
              set_key "fee_bps" (format_int costs.fee_bps)
                (set_key "cost_policy_version" costs.version i.metadata)))
            (revalidated _ _ _ _ _ _ _ _ _ _ h k (
              default_known (is_empty i.quantity_semantics) i.quantity_semantics
                (semantics_of i h))) in
        rw (e, approve_intent) (v, n))

  -- What a round does to the answers.
  abbrev Answers : OrderIntent → Evaluation → Evaluation → Type 0
  Answers i e f =
      Perm (answered f.approved f.rejected) (i.id ∷ answered e.approved e.rejected)
      × (first_fault e.approved ≡ none → first_fault f.approved ≡ none)

  settle-Answers :
      (policy : RiskPolicy) (i : OrderIntent) (o : Option Decimal) (s : Sizing) (e : Evaluation)
      → validate_intent i ≡ none
      → Answers i e (settle_intent format_int policy i o s e)
  unfolding settle_intent
  settle-Answers policy i o (q, some code) e h = (answered-rejected e.approved e.rejected _, λ k. k)
  settle-Answers policy i none (q, none) e h = (answered-rejected e.approved e.rejected _, λ k. k)
  settle-Answers policy i (some p) (q, none) e h = elim (Option-cases (quantity_from_rat q)) [
    | inl k ↦ rw (k, settle_intent) (answered-rejected e.approved e.rejected _, λ k. k)
    | inr (d, k) ↦
        (let valid = approve-valid policy d i h (quantity-positive q d k) in
          rw (k, settle_intent)
            (
              subst
                  (λ (t : String).
                    Perm
                      (answered (e.approved ++ approve_intent format_int policy d i ∷ [])
                        e.rejected)
                      (t ∷ answered e.approved e.rejected))
                  valid.1
                  (answered-approved e.approved e.rejected (approve_intent format_int policy d i)),
              λ f. first_fault-append e.approved (approve_intent format_int policy d i) f valid.0,
            ))
  ]

  evaluate_intents-answered :
      (policy : RiskPolicy) (portfolio : PortfolioSnapshot) (is : List OrderIntent) (e : Evaluation)
      → first_fault is ≡ none
      → first_fault e.approved ≡ none
      → (first_fault (evaluate_intents format_int policy portfolio is e).approved ≡ none)
        × Perm
            (answered
              (evaluate_intents format_int policy portfolio is e).approved
              (evaluate_intents format_int policy portfolio is e).rejected)
            (map (λ (i : OrderIntent). i.id) is ++ answered e.approved e.rejected)
  unfolding evaluate_intents evaluate_intent
  evaluate_intents-answered policy portfolio [] e h k = (k, Perm.refl _)
  evaluate_intents-answered policy portfolio (i ∷ is) e h k =
      (let (valid, rest) = first_fault-head i is h in
        let step =
          settle-Answers policy i (intent_price i portfolio)
            (size_intent policy portfolio e.totals i (intent_price i portfolio)
              (refuse policy portfolio e.approved i (intent_price i portfolio)))
            e valid in
        let after =
          evaluate_intents-answered policy portfolio is
            (evaluate_intent format_int policy portfolio i e) rest (step.1 k) in
        (
          after.0,
          Perm.trans after.1 (
              Perm.trans (Perm.append_left (map (λ (i : OrderIntent). i.id) is) step.0) (
                perm_middle (map (λ (i : OrderIntent). i.id) is) (answered e.approved e.rejected))),
        ))

  decide_batch-answered :
      (e : Evaluation)
      → first_fault e.approved ≡ none
      → (d : RiskDecision) × (decide_batch e ≡ ok (d, e.traces))
        × Perm (answered d.approved d.rejected) (answered e.approved e.rejected)
  unfolding decide_batch new_decision_batch
  decide_batch-answered e h = (
    _,
    rw (h, decide_batch, new_decision_batch) refl,
    Perm.append (sort_stable-Perm comes_before (λ (i : OrderIntent). i.id) e.approved)
        (sort_stable-Perm before_rejection (λ (r : OrderRejection). r.order_id) e.rejected),
  )

  -- With a valid policy, `Evaluate` succeeds on every batch of valid intents, and every intent of the
  -- batch is answered once: the orders approved and rejected are, up to their order, those of the
  -- batch.
  pub evaluate-answered :
      (batch : List OrderIntent) (portfolio : PortfolioSnapshot) (policy : RiskPolicy)
      → validate_policy policy ≡ none
      → first_fault batch ≡ none
      → (d : RiskDecision) × (traces : List RiskTrace) × (evaluate format_int batch portfolio policy
          ≡ ok (d, traces))
        × Perm (answered d.approved d.rejected) (map (λ (i : OrderIntent). i.id) batch)
  unfolding evaluate first_fault opening
  evaluate-answered batch portfolio policy v h =
      (let last = evaluate_intents format_int policy portfolio batch (opening policy portfolio) in
        let all_answered =
          evaluate_intents-answered policy portfolio batch (opening policy portfolio) h refl in
        let (d, e, p) = decide_batch-answered last all_answered.0 in
        (
          d,
          last.traces,
          rw (v, evaluate) e,
          subst (λ (t : List String). Perm (answered d.approved d.rejected) t)
              (append_nil (map (λ (i : OrderIntent). i.id) batch)) (Perm.trans p all_answered.1),
        ))
