-- ===== src/TradingCore/RunLaws.antt =====
-- What an error of `Run` (internal/tradingcore/orchestrator.go) says of the broker and the ledger.
use mathlib.Core.Path.{subst}
use trading_bot.TradingCore.Contracts.{OrderIntent, BrokerBatchOutcome}
use trading_bot.TradingCore.Orchestrator.{
  RunError, submit, RunResult, is_pre_submission_failure, Call, Orchestrator, Decision, broker,
  RunStage, ledger, run_error, observe_all, trace, run_stage, of_rejection, run, go_on, decide,
}
use trading_bot.Base.{
  ◌≡◌, refl, ap, ◌∙◌, Bool, true, false, some, List, inl, inr, Option-cases, arith,
}
use trading_bot.Base.Statements.{Outcome, ok, err}

-- The error of a submission is none of those before it.
abbrev Sent : {W E : Type 0} → Outcome (RunError E) RunResult × W → Type 0
Sent (ok r, w) = Unit
Sent (err f, w) = is_pre_submission_failure f ≡ false

-- The broker answered for the approved intents, and the ledger took the answer last.
abbrev IsRecorded :
    {W E : Type 0}
    → (List OrderIntent → Call W E BrokerBatchOutcome)
    → (List OrderIntent → BrokerBatchOutcome → Call W E (Unit {0}))
    → Outcome (RunError E) RunResult × W
    → Type 0
IsRecorded {W = W} b l (ok r, w) =
    (v : W) × (u : W) × ((b r.risk.approved v).0 ≡ ok r.broker)
    × (l r.risk.approved r.broker u ≡ (ok tt, w))
IsRecorded b l (err f, w) = Unit

-- A stage that succeeds goes on from where it ended.
run_stage-holds :
    {W E A B : Type 0} (Q : Outcome (RunError E) B × W → Type 0) (stage : RunStage)
    (x : Outcome E A × W) (k : A → Call W (RunError E) B)
    → ((e : E) (w : W) → Q (err (run_error stage true e), w))
    → ((a : A) (w : W) → x ≡ (ok a, w) → Q (k a w))
    → Q (run_stage stage true x k)
run_stage-holds Q stage (ok a, w) k f g = g a w refl
run_stage-holds Q stage (err e, w) k f g = f e w

module _ {W E S P : Type 0} (b : List OrderIntent → Call W E BrokerBatchOutcome)
    (l : List OrderIntent → BrokerBatchOutcome → Call W E (Unit {0})) (o : Orchestrator W E S P)
    (d : Decision S) (w : W) where
  submit-Sent : Sent (submit b l o d w)
  unfolding submit
  submit-Sent =
      run_stage-holds Sent broker (b d.risk.approved w) _ (λ e v. refl)
        λ answer v p.
          run_stage-holds Sent ledger (l d.risk.approved answer _) _ (λ e v. refl)
            λ u v q.
              run_stage-holds Sent trace (o.trace d.snapshot d.strategy d.risk answer, v) _
                (λ e v. refl) λ text v r. tt

  submit-IsRecorded : IsRecorded b l (submit b l o d w)
  unfolding submit
  submit-IsRecorded =
      run_stage-holds (IsRecorded b l) broker (b d.risk.approved w) _ (λ e v. tt)
        λ answer v p.
          run_stage-holds (IsRecorded b l) ledger
            (l d.risk.approved answer
              (observe_all o.observer (of_rejection "broker") answer.rejected v))
            _ (λ e v. tt)
            λ u v' q.
              run_stage-holds (IsRecorded b l) trace
                (o.trace d.snapshot d.strategy d.risk answer, v') _ (λ e v. tt)
                λ text v'' r. (w, _, ap (λ x. x.0) p, q ∙ ap done (ap (λ x. x.1) r))
    where
      done : W → Outcome E (Unit {0}) × W
      done w = (ok tt, w)

  Sent-not_pre :
      (f : RunError E) (v : W)
      → submit b l o d w ≡ (err f, v)
      → is_pre_submission_failure f ≡ true
      → ⊥
  Sent-not_pre f v h p = clash (subst Sent h submit-Sent) p
    where
      clash : {c : Bool} → c ≡ false → c ≡ true → ⊥
      clash h g = ground arith

module _ {W E S P : Type 0} where
  abbrev pub served :
      Orchestrator W E S P
      → (List OrderIntent → Call W E BrokerBatchOutcome)
      → (List OrderIntent → BrokerBatchOutcome → Call W E (Unit {0}))
      → Orchestrator W E S P
  served o b l = record o { broker = some b; ledger = some l }

  -- An error for which `IsPreSubmissionFailure` holds comes from before the broker's call: with any
  -- other broker and ledger, the run ends with the same error and leaves the same world.
  pub run-pre_submission :
      (o : Orchestrator W E S P) (b b' : List OrderIntent → Call W E BrokerBatchOutcome)
      (l l' : List OrderIntent → BrokerBatchOutcome → Call W E (Unit {0})) (w v : W)
      (f : RunError E)
      → run (served o b l) w ≡ (err f, v)
      → is_pre_submission_failure f ≡ true
      → run (served o b' l') w ≡ (err f, v)
  unfolding run
  run-pre_submission o b b' l l' w v f h pre = elim (Option-cases o.source) [
    | inl p ↦ rw (p, run) (rw (p, run) at h)
    | inr (s, p) ↦ elim (Option-cases o.strategy) [
      | inl q ↦ rw (p, q, run) (rw (p, q, run) at h)
      | inr (c, q) ↦ elim (Option-cases o.risk) [
        | inl k ↦ rw (p, q, k, run) (rw (p, q, k, run) at h)
        | inr (r, k) ↦
            rw (p, q, k, run) (ended (decide s c r o.observer w) (rw (p, q, k, run) at h))
      ]
    ]
  ]
    where
      ended :
          (x : Outcome (RunError E) (Decision S) × W)
          → go_on x (submit b l (served o b l)) ≡ (err f, v)
          → go_on x (submit b' l' (served o b' l')) ≡ (err f, v)
      ended (ok d, u) h = absurd (Sent-not_pre b l (served o b l) d u f v h pre)
      ended (err g, u) h = h

  IsRecorded-run :
      (b : List OrderIntent → Call W E BrokerBatchOutcome)
      (l : List OrderIntent → BrokerBatchOutcome → Call W E (Unit {0})) (o : Orchestrator W E S P)
      (w : W)
      → IsRecorded b l (run (served o b l) w)
  unfolding run
  IsRecorded-run b l o w = elim (Option-cases o.source) [
    | inl p ↦ rw (p, run, IsRecorded) tt
    | inr (s, p) ↦ elim (Option-cases o.strategy) [
      | inl q ↦ rw (p, q, run, IsRecorded) tt
      | inr (c, q) ↦ elim (Option-cases o.risk) [
        | inl k ↦ rw (p, q, k, run, IsRecorded) tt
        | inr (r, k) ↦ rw (p, q, k, run, IsRecorded) (ended (decide s c r o.observer w))
      ]
    ]
  ]
    where
      ended :
          (x : Outcome (RunError E) (Decision S) × W)
          → IsRecorded b l (go_on x (submit b l (served o b l)))
      ended (ok d, u) = submit-IsRecorded b l (served o b l) d u
      ended (err g, u) = tt

  -- Where the run ends without an error, the broker answered the approved intents of the risk check
  -- with the outcome of the result, and the ledger took these intents and this outcome without an
  -- error; nothing changed the world after it.
  pub run-IsRecorded :
      (o : Orchestrator W E S P) (b : List OrderIntent → Call W E BrokerBatchOutcome)
      (l : List OrderIntent → BrokerBatchOutcome → Call W E (Unit {0})) (w v : W) (r : RunResult)
      → run (served o b l) w ≡ (ok r, v)
      → (before : W) × (between : W) × ((b r.risk.approved before).0 ≡ ok r.broker)
        × (l r.risk.approved r.broker between ≡ (ok tt, v))
  run-IsRecorded o b l w v r h = subst (IsRecorded b l) h (IsRecorded-run b l o w)
