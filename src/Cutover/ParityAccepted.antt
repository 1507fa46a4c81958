-- ===== src/Cutover/ParityAccepted.antt =====
-- What `VerifyComparisonWithPolicy` of internal/cutover/parity.go accepts.
use trading_bot.Base.{
  suc, ◌≡◌, refl, sym, ap, ◌∙◌, Bool, true, false, not, ◌||◌, none, some, List, [], ◌∷◌, String,
  if◌then◌else◌, str_eq, eq_iff, inl, inr, Bool-cases, Option-cases, ◌==◌, arith, length,
}
use trading_bot.Cutover.Parity.{
  ComparisonPolicy, Comparison, ParityError, Library, classify, reasons_of, sort, same_texts,
}
use trading_bot.Cutover.ParityRun.{
  verify_comparison, verify_comparison_with_policy, compare_outcomes,
}

same_texts-eq : (xs ys : List String) → same_texts xs ys ≡ true → xs ≡ ys
same_texts-eq [] [] h = refl
same_texts-eq [] (y ∷ ys) h = ground arith
same_texts-eq (x ∷ xs) [] h = ground arith
same_texts-eq (x ∷ xs) (y ∷ ys) h = cong_cons ((eq_iff x y).0 both.0) (same_texts-eq xs ys both.1)
  where
    both : (str_eq x y ≡ true) × (same_texts xs ys ≡ true)
    both = ground arith

    cong_cons : x ≡ y → xs ≡ ys → x ∷ xs ≡ y ∷ ys
    cong_cons p q = rw (p, q) refl

classify-match : (cs rs : List String) → classify cs rs ≡ "match" → cs ≡ []
unfolding classify
classify-match [] rs h = refl
classify-match (c ∷ cs) rs h = elim (Bool-cases (length rs == suc (length cs))) [
  | inl p ↦ absurd (differ "expected" refl (rw (p) at h))
  | inr p ↦ absurd (differ "unexplained" refl (rw (p) at h))
]
  where
    clash : {b : Bool} → b ≡ false → b ≡ true → ⊥
    clash p q = ground arith

    differ : (s : String) → str_eq s "match" ≡ false → s ≡ "match" → ⊥
    differ s p q = clash p ((eq_iff s "match").1 q)

passed :
    {E : Type 0} (e : E) (a b c : Bool)
    → (if not a || not b || not c then some e else none) ≡ none
    → (a ≡ true) × (b ≡ true) × (c ≡ true)
passed e true true true h = (refl, refl, refl)
passed e false b c h = ground arith
passed e true false c h = ground arith
passed e true true false h = ground arith

module _ {F : Type 0} (lib : Library F) where
  -- What is recomputed agrees with what is stored.
  accepted :
      (c : Comparison) (policy : ComparisonPolicy)
      → verify_comparison_with_policy lib c policy ≡ none
      → (classify (compare_outcomes lib c.legacy c.candidate policy) (
            reasons_of c.legacy c.candidate policy.expected
              (compare_outcomes lib c.legacy c.candidate policy))
          ≡ c.classification)
        × (sort (compare_outcomes lib c.legacy c.candidate policy) ≡ c.divergence_codes)
  unfolding verify_comparison_with_policy
  accepted c policy h = elim (Option-cases (verify_comparison lib c)) [
    | inl p ↦
        (let q =
            passed ParityError.policy_mismatch _ _ _ (rw (p, verify_comparison_with_policy) at h) in
          ((eq_iff _ _).0 q.0, same_texts-eq _ _ q.1))
    | inr (e, p) ↦ absurd (refused e (rw (p, verify_comparison_with_policy) at h))
  ]
    where
      refused : (e : ParityError) → some e ≡ none → ⊥
      refused e h = ground arith

  -- A stored comparison that passes `VerifyComparisonWithPolicy` and is classified as a match is of
  -- two outcomes between which `compareOutcomes` finds no divergence; it lists no divergence either.
  pub accepted-match :
      (c : Comparison) (policy : ComparisonPolicy)
      → verify_comparison_with_policy lib c policy ≡ none
      → c.classification ≡ "match"
      → (compare_outcomes lib c.legacy c.candidate policy ≡ []) × (c.divergence_codes ≡ [])
  unfolding sort
  accepted-match c policy h m =
      (let p = accepted c policy h in
        let none_found = classify-match _ _ (p.0 ∙ m) in (none_found, sym p.1 ∙ ap sort none_found))
