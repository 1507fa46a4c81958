-- ===== src/Ledger/PlanLaws.antt =====
-- What `validateBrokerOutcome` of internal/ledger/tradingcore_adapter.go lets through.
use mathlib.Core.Path.{subst}
use trading_bot.TradingCore.Contracts.{OrderIntent, AcceptedOrder, Fill, BrokerBatchOutcome}
use trading_bot.Accounting.Decimal.{Decimal, cmp, add, is_negative, is_zero}
use trading_bot.Base.{
  ◌≡◌, refl, sym, ap, ◌∙◌, Bool, true, false, not, ◌&&◌, ◌||◌, Option, none, some, List, [], ◌∷◌,
  ◌++◌, String, if◌then◌else◌, str_eq, eq_refl, inl, inr, Bool-cases, Option-cases, ◌==◌, arith,
  pos, is_empty, all, eqb_ℤ, all-append, length,
}
use trading_bot.Accounting.Decimal.{units}
use trading_bot.Ledger.Error.{Failure, err_exchange_execution_fenced, other}
use trading_bot.Base.Statements.{ok, err}
use trading_bot.Ledger.Store.{Result}
use trading_bot.Ledger.Command.{FillCommand}
use trading_bot.Ledger.Outcome.{
  OutcomePlan, Executed, Resolved, require, when, and_then, execute_fills, fill_command, is_live,
  check_fill, check_remaining, intent_of, plan_order, validate_broker_outcome, accept_order,
  accept_orders, is_complete, remaining_after, is_seen_order, check_intents, metadata_of, with_plan,
  reject_orders, is_filled, count_intents,
}

-- The quantity of fills, from an amount on.
abbrev pub total_quantity : Decimal → List FillCommand → Decimal
total_quantity a [] = a
total_quantity a (c ∷ cs) = total_quantity (add a c.quantity) cs

-- What holds of the answer where there is one.
abbrev pub IfOk : {A : Type 0} → (A → Type 0) → Result A → Type 0
IfOk P (ok a) = P a
IfOk P (err e) = Unit

module _ {A B : Type 0} (P : A → Type 0) (Q : B → Type 0) where
  pub IfOk-and_then :
      (r : Result A) (f : A → Result B)
      → IfOk P r
      → ((a : A) → P a → IfOk Q (f a))
      → IfOk Q (and_then r f)
  IfOk-and_then (ok a) f p k = k a p
  IfOk-and_then (err e) f p k = tt

module _ {B : Type 0} (Q : B → Type 0) where
  pub IfOk-when :
      (b : Bool) (e : Failure) (f : Unit {0} → Result B)
      → (b ≡ false → IfOk Q (f tt))
      → IfOk Q (and_then (require (when b e)) f)
  IfOk-when true e f k = tt
  IfOk-when false e f k = k refl

  pub IfOk-require :
      (o : Option Failure) (f : Unit {0} → Result B)
      → (o ≡ none → IfOk Q (f tt))
      → IfOk Q (and_then (require o) f)
  IfOk-require (some e) f k = tt
  IfOk-require none f k = k refl

total_quantity-append :
    (a : Decimal) (cs : List FillCommand) (c : FillCommand)
    → total_quantity a (cs ++ c ∷ []) ≡ add (total_quantity a cs) c.quantity
total_quantity-append a [] c = refl
total_quantity-append a (d ∷ ds) c = total_quantity-append (add a d.quantity) ds c

-- The quantity counted is that of the commands, which are in the intent's quote asset.
record IsCounted (cur : String) (e : Executed) : Type 0 where
  counted : e.quantity ≡ total_quantity (units (pos 0)) e.commands
  spelled : all (λ (c : FillCommand). str_eq c.currency cur) e.commands ≡ true

module _ (i : OrderIntent) (a : AcceptedOrder) where
  IsCounted-more :
      (e : Executed) (f : Fill) (ids : List String)
      → IsCounted i.instrument.quote_asset e
      → IsCounted i.instrument.quote_asset (record {
        provider_fills = ids;
        quantity = add e.quantity f.quantity;
        commands = e.commands ++ fill_command i a f ∷ [];
      })
  IsCounted-more e f ids h = record {
    counted =
        ap (λ d. add d f.quantity) h.counted
        ∙ sym (
            total_quantity-append (units (pos 0)) e.commands (fill_command i a f)
            ∙ ap (add (total_quantity (units (pos 0)) e.commands)) amount);
    spelled =
        all-append (λ (c : FillCommand). str_eq c.currency i.instrument.quote_asset) e.commands
          (fill_command i a f ∷ [])
        ∙ rw (h.spelled) currency;
  }
    where
      amount : (fill_command i a f).quantity ≡ f.quantity
      amount = unfold fill_command in refl

      currency :
          (true && (str_eq (fill_command i a f).currency i.instrument.quote_asset && true)) ≡ true
      currency = unfold fill_command in rw (eq_refl i.instrument.quote_asset) refl

  execute_fills-IsCounted :
      (fs : List Fill) (e : Executed)
      → IsCounted i.instrument.quote_asset e
      → IfOk (IsCounted i.instrument.quote_asset) (execute_fills i a e fs)
  unfolding execute_fills
  execute_fills-IsCounted [] e h = h
  execute_fills-IsCounted (f ∷ fs) e h =
      IfOk-require (IsCounted i.instrument.quote_asset) (check_fill i e.provider_fills f)
        (λ u. execute_fills i a _ fs)
        λ p.
          execute_fills-IsCounted fs
            (record {
              provider_fills = f.provider_fill_id ∷ e.provider_fills;
              quantity = add e.quantity f.quantity;
              commands = e.commands ++ fill_command i a f ∷ [];
            })
            (IsCounted-more e f (f.provider_fill_id ∷ e.provider_fills) h)

-- A plan is for an approved intent and not for live trading; its fills and what remains make up the
-- intent's quantity, nothing negative remains, and the fills are in the intent's quote asset.
pub record IsPlanned (approved : List OrderIntent) (p : OutcomePlan) : Type 0 where
  pub intended : intent_of p.accepted.order_id approved ≡ some p.intent
  pub fenced : is_live p.intent.execution_mode ≡ false
  pub sum :
      eqb_ℤ
        (cmp (add (total_quantity (units (pos 0)) p.commands) p.remaining) p.intent.quantity)
        (pos 0)
      ≡ true
  pub remains : is_negative p.remaining ≡ false
  pub requested : p.requested ≡ p.intent.quantity
  pub spelled :
      all (λ (c : FillCommand). str_eq c.currency p.intent.instrument.quote_asset) p.commands ≡ true

checked_remaining :
    (i : OrderIntent) (a : AcceptedOrder) (d : Decimal)
    → check_remaining i a d ≡ none
    → (eqb_ℤ (cmp (add d (remaining_after i a d)) i.quantity) (pos 0) ≡ true)
      × (is_negative (remaining_after i a d) ≡ false)
unfolding check_remaining
checked_remaining i a d h =
    read (eqb_ℤ (cmp (add d (remaining_after i a d)) i.quantity) (pos 0))
      (is_negative (remaining_after i a d))
      (is_filled a.status && not (is_zero (remaining_after i a d))) h
  where
    read :
        (b c d : Bool)
        → (if not b || c then some other else when d other) ≡ none
        → (b ≡ true) × (c ≡ false)
    read b c d h = ground arith

plan_order-IsPlanned :
    (approved : List OrderIntent) (i : OrderIntent) (ids : List String) (a : AcceptedOrder)
    → intent_of a.order_id approved ≡ some i
    → IfOk (λ r. IsPlanned approved r.1) (plan_order i ids a)
unfolding plan_order
plan_order-IsPlanned approved i ids a found =
    let Q : List String × OutcomePlan → Type 0 = λ r. IsPlanned approved r.1 in
    IfOk-when Q (is_live i.execution_mode) err_exchange_execution_fenced _ λ fenced.
      IfOk-when Q (is_empty (metadata_of "cost_policy_version" i)) other _ λ cost.
        IfOk-and_then (IsCounted i.instrument.quote_asset) Q
          (execute_fills i a
            (record { provider_fills = ids; quantity = units (pos 0); commands = [] }) a.fills)
          _
          (execute_fills-IsCounted i a a.fills
            (record { provider_fills = ids; quantity = units (pos 0); commands = [] })
            (record { counted = refl; spelled = refl }))
          λ e counted. IfOk-require Q (check_remaining i a e.quantity) _ λ agrees. record {
            intended = found;
            fenced = fenced;
            sum =
                subst
                  (λ (d : Decimal).
                    eqb_ℤ (cmp (add d (remaining_after i a e.quantity)) i.quantity) (pos 0) ≡ true)
                  counted.counted (checked_remaining i a e.quantity agrees).0;
            remains = (checked_remaining i a e.quantity agrees).1;
            requested = refl;
            spelled = counted.spelled;
          }

abbrev pub Every : {A : Type 0} → (A → Type 0) → List A → Type 0
Every P [] = Unit
Every P (x ∷ xs) = P x × Every P xs

Every-append :
    {A : Type 0} (P : A → Type 0) (xs : List A) (y : A) → Every P xs → P y → Every P (xs ++ y ∷ [])
Every-append P [] y h p = (p, tt)
Every-append P (x ∷ xs) y h p = (h.0, Every-append P xs y h.1 p)

module _ (approved : List OrderIntent) where
  accept_order-IsPlanned :
      (x : Resolved) (a : AcceptedOrder)
      → Every (IsPlanned approved) x.plans
      → IfOk (λ y. Every (IsPlanned approved) y.plans) (accept_order approved x a)
  unfolding accept_order
  accept_order-IsPlanned x a h = elim (Option-cases (intent_of a.order_id approved)) [
    | inl p ↦ rw (p, accept_order, IfOk) tt
    | inr (i, p) ↦ elim (Bool-cases (is_seen_order a.order_id x.seen)) [
      | inl q ↦ rw (p, q, accept_order, IfOk) tt
      | inr q ↦
          rw (p, q, accept_order, IfOk)
            (IfOk-and_then (λ r. IsPlanned approved r.1) (λ y. Every (IsPlanned approved) y.plans)
              (plan_order i x.provider_fills a) (λ r. ok (with_plan x a r))
              (plan_order-IsPlanned approved i x.provider_fills a p)
              (λ r planned. Every-append (IsPlanned approved) x.plans r.1 h planned))
    ]
  ]

  accept_orders-IsPlanned :
      (orders : List AcceptedOrder) (x : Resolved)
      → Every (IsPlanned approved) x.plans
      → IfOk (λ y. Every (IsPlanned approved) y.plans) (accept_orders approved orders x)
  unfolding accept_orders
  accept_orders-IsPlanned [] x h = h
  accept_orders-IsPlanned (a ∷ later) x h =
      IfOk-and_then (λ y. Every (IsPlanned approved) y.plans)
        (λ y. Every (IsPlanned approved) y.plans) (accept_order approved x a)
        (λ y. accept_orders approved later y) (accept_order-IsPlanned x a h)
        (λ y g. accept_orders-IsPlanned later y g)

  validate-Every :
      (outcome : BrokerBatchOutcome)
      → IfOk (Every (IsPlanned approved)) (validate_broker_outcome approved outcome)
  unfolding validate_broker_outcome
  validate-Every outcome =
      let Q : List OutcomePlan → Type 0 = Every (IsPlanned approved) in
      IfOk-when Q (not (is_complete outcome.completeness)) _ _ λ h.
        IfOk-and_then (λ u. Unit {0}) Q (check_intents approved) _ (unit (check_intents approved))
          λ u h.
            IfOk-and_then (λ y. Every (IsPlanned approved) y.plans) Q
              (accept_orders approved outcome.accepted
                (record { seen = []; provider_fills = []; plans = [] }))
              _
              (accept_orders-IsPlanned outcome.accepted
                (record { seen = []; provider_fills = []; plans = [] }) tt)
              λ x planned.
                IfOk-and_then (λ u. Unit {0}) Q (reject_orders approved outcome.rejected x.seen) _
                  (unit (reject_orders approved outcome.rejected x.seen))
                  λ seen h.
                    IfOk-when Q (not (length seen == count_intents approved)) other _ λ e. planned
    where
      unit : {A : Type 0} (r : Result A) → IfOk (λ u. Unit {0}) r
      unit (ok a) = tt
      unit (err e) = tt

-- Where the outcome of a broker is accepted, every plan is for an approved intent that is not in a
-- live mode; its fills are in the intent's quote asset, their quantities and what remains add up to
-- the intent's quantity, and what remains is not negative.
pub validate-IsPlanned :
    (approved : List OrderIntent) (outcome : BrokerBatchOutcome) (plans : List OutcomePlan)
    → validate_broker_outcome approved outcome ≡ ok plans
    → Every (IsPlanned approved) plans
validate-IsPlanned approved outcome plans h =
    subst (IfOk (Every (IsPlanned approved))) h (validate-Every approved outcome)
