-- ===== src/Cutover/ParityVerified.antt =====
-- The comparisons that `RunParity` of internal/cutover/parity.go returns, and what its checks accept.
use mathlib.Core.Path.{subst}
use trading_bot.Base.{
  ℕ, suc, ◌+◌, ◌≡◌, refl, sym, ap, ◌∙◌, Bool, true, not, ◌&&◌, Option, none, some, List, [], ◌∷◌,
  String, str_eq, eq_refl, inl, inr, Bool-cases, Option-cases, ◌==◌, arith, is_empty, length,
}
use trading_bot.Base.Statements.{Outcome, ok, err}
use trading_bot.Base.{codes}
use trading_bot.Cutover.Parity.{
  DecisionContext, DecisionOutcome, ComparisonPolicy, Comparison, ParityError, Library, classify,
  reasons_of, stored_outcome, sort, bytes,
}
use trading_bot.Cutover.ParityRun.{
  Adapter, run_parity, compared, answered, verify_comparison, verify_comparison_with_policy,
  compare_outcomes, canonical_context_id, stored_context, clone, is_digest_of, known_class,
}
use trading_bot.Cutover.ParityLaws.{sort-sort, same_texts_refl}

known_class-classify : (cs rs : List String) → known_class (classify cs rs) ≡ true
unfolding classify
known_class-classify [] rs = refl
known_class-classify (c ∷ cs) rs = elim (Bool-cases (length rs == suc (length cs))) [
  | inl p ↦ rw (p) refl
  | inr p ↦ rw (p) refl
]

module _ {F : Type 0} (lib : Library F) where
  -- The outcomes and the content of a comparison have an encoding.
  abbrev pub IsEncoded : Comparison → Type 0
  IsEncoded c =
      (l : String) × (r : String) × (t : String) × (lib.outcome_json c.legacy ≡ some l)
      × (lib.outcome_json c.candidate ≡ some r)
      × (lib.content_json c.context_id c.legacy c.candidate c.divergence_codes c.expected_reasons
            c.classification
          ≡ some t)

  passes_verification :
      (c : Comparison)
      → (length (codes c.context_id) == 64) ≡ true
      → (c.submit_attempts == 0) ≡ true
      → known_class c.classification ≡ true
      → is_digest_of lib (lib.outcome_json c.legacy) c.legacy_digest ≡ true
      → is_digest_of lib (lib.outcome_json c.candidate) c.candidate_digest ≡ true
      → sort c.divergence_codes ≡ c.divergence_codes
      → sort c.expected_reasons ≡ c.expected_reasons
      → is_digest_of lib
          (lib.content_json c.context_id c.legacy c.candidate c.divergence_codes c.expected_reasons
            c.classification)
          c.content_digest
        ≡ true
      → verify_comparison lib c ≡ none
  unfolding verify_comparison
  passes_verification c h a k l r d e t =
      rw
        (
          h,
          a,
          k,
          l,
          r,
          d,
          e,
          t,
          same_texts_refl c.divergence_codes,
          same_texts_refl c.expected_reasons,
        )
        refl

  digest_of :
      (o : Option String) (t : String)
      → o ≡ some t
      → is_digest_of lib o (lib.digest (bytes o)) ≡ true
  digest_of o t h = rw (h) (eq_refl (lib.digest t))

  abbrev found : ComparisonPolicy → Comparison → List String
  found policy c = compare_outcomes lib c.legacy c.candidate policy

  abbrev explained : ComparisonPolicy → Comparison → List String
  explained policy c = reasons_of c.legacy c.candidate policy.expected (found policy c)

  with_policy_none :
      (c : Comparison) (policy : ComparisonPolicy)
      → verify_comparison lib c ≡ none
      → classify (found policy c) (explained policy c) ≡ c.classification
      → sort (found policy c) ≡ c.divergence_codes
      → sort (explained policy c) ≡ c.expected_reasons
      → verify_comparison_with_policy lib c policy ≡ none
  unfolding verify_comparison_with_policy
  with_policy_none c policy h k d e =
      rw
        (
          verify_comparison_with_policy,
          h,
          k,
          d,
          e,
          eq_refl c.classification,
          same_texts_refl c.divergence_codes,
          same_texts_refl c.expected_reasons,
        )
        refl

  compared-verified :
      (id : String) (l r : DecisionOutcome) (policy : ComparisonPolicy)
      → (length (codes id) == 64) ≡ true
      → IsEncoded (compared lib id l r policy)
      → verify_comparison_with_policy lib (compared lib id l r policy) policy ≡ none
  unfolding compared
  compared-verified id l r policy h e =
      (let c = compared lib id l r policy in
        with_policy_none c policy
          (passes_verification c h refl (known_class-classify (found policy c) (explained policy c))
            (digest_of (lib.outcome_json l) e.0 e.3) (digest_of (lib.outcome_json r) e.1 e.4)
            (sort-sort (found policy c)) (sort-sort (explained policy c)) (digest_of _ e.2 e.5))
          refl refl refl)

  -- What a comparison without an error comes from.
  abbrev Compares : Adapter → Adapter → ComparisonPolicy → Outcome ParityError Comparison → Type 0
  Compares legacy candidate policy (err e) = Unit
  Compares legacy candidate policy (ok c) =
      (text : String) × (copy : DecisionContext) × (l : DecisionOutcome) × (r : DecisionOutcome)
      × (legacy copy ≡ (ok l, 0))
      × (candidate copy ≡ (ok r, 0))
      × (c ≡ compared lib (lib.digest text) (stored_outcome l) (stored_outcome r) policy)

  answered-Compares :
      (text : String) (copy : DecisionContext) (legacy candidate : Adapter)
      (policy : ComparisonPolicy) (x y : Outcome String DecisionOutcome × ℕ)
      → legacy copy ≡ x
      → candidate copy ≡ y
      → Compares legacy candidate policy (answered lib (lib.digest text) policy x y)
  answered-Compares text copy a b policy (err e, n) y p q = tt
  answered-Compares text copy a b policy (ok l, n) (err e, m) p q = tt
  answered-Compares text copy a b policy (ok l, n) (ok r, m) p q = elim (Bool-cases (n + m == 0)) [
    | inl h ↦ rw (h) (
      text,
      copy,
      l,
      r,
      p ∙ ap (λ k. (ok l, k)) (none_of n m h),
      q ∙ ap (λ k. (ok r, k)) (none_of' n m h),
      refl,
    )
    | inr h ↦ rw (h) tt
  ]
    where
      none_of : (n m : ℕ) → (n + m == 0) ≡ true → n ≡ 0
      none_of n m h = ground arith

      none_of' : (n m : ℕ) → (n + m == 0) ≡ true → m ≡ 0
      none_of' n m h = ground arith

  run_parity-Compares :
      (given : DecisionContext) (legacy candidate : Adapter) (policy : ComparisonPolicy)
      → Compares legacy candidate policy (run_parity lib given legacy candidate policy)
  unfolding run_parity canonical_context_id
  run_parity-Compares given a b policy = elim (Option-cases (lib.context_json unnamed)) [
    | inl p ↦ rw (p, run_parity, canonical_context_id) tt
    | inr (text, p) ↦ elim (Bool-cases (misnamed text)) [
      | inl q ↦ rw (p, q, run_parity, canonical_context_id) tt
      | inr q ↦ elim (Option-cases (clone lib (named text))) [
        | inl k ↦ rw (p, q, k, run_parity, canonical_context_id) tt
        | inr (copy, k) ↦
            rw (p, q, k, run_parity, canonical_context_id)
              (answered-Compares text copy a b policy (a copy) (b copy) refl refl)
      ]
    ]
  ]
    where
      unnamed : DecisionContext
      unnamed = stored_context (record (stored_context given) { context_id = "" })

      misnamed : String → Bool
      misnamed text =
          not (is_empty given.context_id) && not (str_eq given.context_id (lib.digest text))

      named : String → DecisionContext
      named text = record (stored_context given) { context_id = lib.digest text }

  -- A comparison that `RunParity` returns, whose outcomes and content have a JSON encoding, passes
  -- `VerifyComparisonWithPolicy` under the policy it was made with, for digests of 64 characters.
  pub run_parity-verified :
      (given : DecisionContext) (legacy candidate : Adapter) (policy : ComparisonPolicy)
      (c : Comparison)
      → ((text : String) → (length (codes (lib.digest text)) == 64) ≡ true)
      → run_parity lib given legacy candidate policy ≡ ok c
      → IsEncoded c
      → verify_comparison_with_policy lib c policy ≡ none
  run_parity-verified given a b policy c h r e =
      made (subst (Compares a b policy) r (run_parity-Compares given a b policy)) e
    where
      made :
          Compares a b policy (ok c)
          → IsEncoded c
          → verify_comparison_with_policy lib c policy ≡ none
      made (text, copy, l, r, p, q, k) e =
          subst (λ d. verify_comparison_with_policy lib d policy ≡ none) (sym k)
            (compared-verified (lib.digest text) (stored_outcome l) (stored_outcome r) policy
              (h text) (subst IsEncoded k e))

  compared-legacy :
      (id : String) (l r : DecisionOutcome) (policy : ComparisonPolicy)
      → (compared lib id l r policy).legacy ≡ l
  unfolding compared
  compared-legacy id l r policy = refl

  compared-candidate :
      (id : String) (l r : DecisionOutcome) (policy : ComparisonPolicy)
      → (compared lib id l r policy).candidate ≡ r
  unfolding compared
  compared-candidate id l r policy = refl

  -- A comparison that `RunParity` returns is of the answers of both adapters to one and the same
  -- context, with their times in whole microseconds, and neither adapter called the broker.
  pub run_parity-no_submission :
      (given : DecisionContext) (legacy candidate : Adapter) (policy : ComparisonPolicy)
      (c : Comparison)
      → run_parity lib given legacy candidate policy ≡ ok c
      → (copy : DecisionContext) × (l : DecisionOutcome) × (r : DecisionOutcome) × (legacy copy
          ≡ (ok l, 0))
        × (candidate copy ≡ (ok r, 0))
        × (c.legacy ≡ stored_outcome l)
        × (c.candidate ≡ stored_outcome r)
  run_parity-no_submission given a b policy c r =
      made (subst (Compares a b policy) r (run_parity-Compares given a b policy))
    where
      made :
          Compares a b policy (ok c)
          → (copy : DecisionContext) × (l : DecisionOutcome) × (r : DecisionOutcome) × (a copy
              ≡ (ok l, 0))
            × (b copy ≡ (ok r, 0))
            × (c.legacy ≡ stored_outcome l)
            × (c.candidate ≡ stored_outcome r)
      made (text, copy, l, r, p, q, k) = (
        copy,
        l,
        r,
        p,
        q,
        ap (λ d. d.legacy) k ∙ compared-legacy _ _ _ policy,
        ap (λ d. d.candidate) k ∙ compared-candidate _ _ _ policy,
      )
