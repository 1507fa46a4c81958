-- ===== src/Ledger/Outcome.antt =====
-- `validateBrokerOutcome` of internal/ledger/tradingcore_adapter.go: a broker's outcome as the fills
-- to apply. The stops and targets of a fill are float64 metadata and left out.
use trading_bot.Ledger.Command.{FillCommand}
use trading_bot.TradingCore.Rollout.{ExecutionMode}
use trading_bot.Base.{
  ℕ, suc, Bool, true, false, not, ◌&&◌, ◌||◌, Option, none, some, List, [], ◌∷◌, ◌++◌, String,
  if◌then◌else◌, str_eq, ◌==◌, pos, is_empty, any, eqb_ℤ, length,
}
use trading_bot.Base.Entries.{lookup}
use trading_bot.Base.Statements.{ok, err}
use trading_bot.Accounting.Decimal.{Decimal, add, sub, zero, cmp, is_negative, is_zero}
use Prim.Native.String.{◌++◌ as append}
use trading_bot.Ledger.Store.{Result}
use trading_bot.Ledger.Error.{
  Failure, other, require_primary_account, new_error, err_exchange_execution_fenced,
  indeterminate_kind,
}
use trading_bot.TradingCore.Contracts.{
  OrderIntent, Fill, AcceptedOrder, OrderRejection, BrokerBatchOutcome, BrokerOrderStatus,
  OutcomeCompleteness, eq_side, side_name, mode_name, status_name,
}

pub record OutcomePlan : Type 0 where
  pub intent : OrderIntent
  pub accepted : AcceptedOrder
  pub requested : Decimal
  pub remaining : Decimal
  pub symbol : String
  pub commands : List FillCommand

abbrev pub and_then : {A B : Type 0} → Result A → (A → Result B) → Result B
and_then (ok a) f = f a
and_then (err e) f = err e

abbrev pub require : Option Failure → Result (Unit {0})
require none = ok tt
require (some e) = err e

abbrev pub when : Bool → Failure → Option Failure
when true e = some e
when false e = none

abbrev pub is_economic : ExecutionMode → Bool
is_economic ExecutionMode.paper = true
is_economic ExecutionMode.limited_live = true
is_economic ExecutionMode.full_live = true
is_economic _ = false

abbrev pub is_live : ExecutionMode → Bool
is_live ExecutionMode.limited_live = true
is_live ExecutionMode.full_live = true
is_live _ = false

-- The loop over the approved intents.
unfoldable pub check_intents : List OrderIntent → Result (Unit {0})
check_intents [] = ok tt
check_intents (i ∷ is) =
    let rest = check_intents is in
    and_then (require (require_primary_account i.account_id))
      λ u. and_then (require (when (not (is_economic i.execution_mode)) other)) λ u. rest

-- `intents[id]`: a later intent of the same identifier replaces an earlier one.
abbrev pub intent_of : String → List OrderIntent → Option OrderIntent
intent_of id [] = none
intent_of id (i ∷ is) =
    let rest = intent_of id is in
    elim rest [ some j ↦ some j | none ↦ if str_eq i.id id then some i else none ]

-- `len(intents)`
abbrev pub count_intents : List OrderIntent → ℕ
count_intents [] = 0
count_intents (i ∷ is) =
    let rest = count_intents is in if any (λ j. str_eq j.id i.id) is then rest else suc rest

abbrev pub metadata_of : String → OrderIntent → String
metadata_of key i = elim (lookup key i.metadata) [ none ↦ "" | some v ↦ v ]

unfoldable pub fill_command : OrderIntent → AcceptedOrder → Fill → FillCommand
fill_command i a f = record {
  idempotency_key = append i.idempotency_key (append ":" f.provider_fill_id);
  account_id = i.account_id;
  symbol = i.instrument.base_asset;
  side = side_name i.side;
  quantity = f.quantity;
  requested_price = elim i.reference_price [ none ↦ f.price | some p ↦ p ];
  fill_price = f.price;
  fee = f.fee;
  fee_type = "trading_fee";
  currency = i.instrument.quote_asset;
  execution_mode = mode_name i.execution_mode;
  provider_fill_id = f.provider_fill_id;
  provider_order_id = a.provider_order_id;
  venue_id = i.instrument.venue;
  fee_currency = "";
  order_status = status_name a.status;
  existing_order_id = 0;
  client_order_id = "";
  occurred_at = f.filled_at;
  actor = f.source;
  reason = i.reason;
  strategy_version = i.versions.strategy;
  policy_version = i.versions.policy;
  cost_model_version = f.cost_model_version;
  model_version = i.versions.model;
}

-- The dimensions of a fill, its identifier and its cost model.
unfoldable pub check_fill : OrderIntent → List String → Fill → Option Failure
check_fill i provider_fills f =
    if not (str_eq f.instrument_id i.instrument.id)
      || not (eq_side f.side i.side)
      || not (str_eq f.fee_asset i.instrument.quote_asset)
    then some other
    else if any (λ id. str_eq id f.provider_fill_id) provider_fills
    then some other
    else when (not (str_eq f.cost_model_version (metadata_of "cost_policy_version" i))) other

-- The loop over the fills of an order: the provider's identifiers seen, the quantity executed and
-- the commands.
pub record Executed : Type 0 where
  pub provider_fills : List String
  pub quantity : Decimal
  pub commands : List FillCommand

unfoldable pub execute_fills : OrderIntent → AcceptedOrder → Executed → List Fill → Result Executed
execute_fills i a e [] = ok e
execute_fills i a e (f ∷ fs) =
    let rest =
      execute_fills i a
        (record {
          provider_fills = f.provider_fill_id ∷ e.provider_fills;
          quantity = add e.quantity f.quantity;
          commands = e.commands ++ fill_command i a f ∷ [];
        })
        fs in
    and_then (require (check_fill i e.provider_fills f)) λ u. rest

abbrev pub is_filled : BrokerOrderStatus → Bool
is_filled BrokerOrderStatus.filled = true
is_filled _ = false

abbrev pub remaining_after : OrderIntent → AcceptedOrder → Decimal → Decimal
remaining_after i a executed = elim a.remaining [ none ↦ sub i.quantity executed | some r ↦ r ]

-- The quantities of an order agree.
unfoldable pub check_remaining : OrderIntent → AcceptedOrder → Decimal → Option Failure
check_remaining i a executed =
    if not (eqb_ℤ (cmp (add executed (remaining_after i a executed)) i.quantity) (pos 0))
      || is_negative (remaining_after i a executed)
    then some other
    else when (is_filled a.status && not (is_zero (remaining_after i a executed))) other

unfoldable pub plan_order :
    OrderIntent → List String → AcceptedOrder → Result (List String × OutcomePlan)
plan_order i provider_fills a =
    and_then (require (when (is_live i.execution_mode) err_exchange_execution_fenced)) λ u.
      and_then (require (when (is_empty (metadata_of "cost_policy_version" i)) other)) λ u.
        and_then
          (execute_fills i a
            (record { provider_fills = provider_fills; quantity = zero; commands = [] }) a.fills)
          λ e. and_then (require (check_remaining i a e.quantity)) λ u. ok (
            e.provider_fills,
            record {
              intent = i;
              accepted = a;
              requested = i.quantity;
              remaining = remaining_after i a e.quantity;
              symbol = i.instrument.base_asset;
              commands = e.commands;
            },
          )

-- The orders that were seen, the provider's fills seen, and the plans.
pub record Resolved : Type 0 where
  pub seen : List String
  pub provider_fills : List String
  pub plans : List OutcomePlan

abbrev pub is_seen_order : String → List String → Bool
is_seen_order id seen = any (λ s. str_eq s id) seen

abbrev pub with_plan : Resolved → AcceptedOrder → List String × OutcomePlan → Resolved
with_plan x a r = record {
  seen = a.order_id ∷ x.seen;
  provider_fills = r.0;
  plans = x.plans ++ r.1 ∷ [];
}

-- One accepted order: it must be that of an intent, and the first one.
unfoldable pub accept_order : List OrderIntent → Resolved → AcceptedOrder → Result Resolved
accept_order intents x a = elim (intent_of a.order_id intents) [
  | none ↦ err other
  | some i ↦
      if is_seen_order a.order_id x.seen
      then err other
      else and_then (plan_order i x.provider_fills a) (λ r. ok (with_plan x a r))
]

unfoldable pub accept_orders : List OrderIntent → List AcceptedOrder → Resolved → Result Resolved
accept_orders intents [] x = ok x
accept_orders intents (a ∷ later) x =
    and_then (accept_order intents x a) (λ y. accept_orders intents later y)

unfoldable pub reject_orders :
    List OrderIntent → List OrderRejection → List String → Result (List String)
reject_orders intents [] seen = ok seen
reject_orders intents (r ∷ rs) seen =
    let rest = reject_orders intents rs (r.order_id ∷ seen) in
    elim (intent_of r.order_id intents) [
      | none ↦ err other
      | some i ↦ if is_seen_order r.order_id seen then err other else rest
    ]

abbrev pub is_complete : OutcomeCompleteness → Bool
is_complete OutcomeCompleteness.complete = true
is_complete OutcomeCompleteness.indeterminate = false

unfoldable pub validate_broker_outcome :
    List OrderIntent → BrokerBatchOutcome → Result (List OutcomePlan)
validate_broker_outcome approved outcome =
    and_then
      (require (
        when (not (is_complete outcome.completeness))
          (new_error indeterminate_kind "broker_outcome_indeterminate")))
      λ u. and_then (check_intents approved) λ u.
        and_then
          (accept_orders approved outcome.accepted
            (record { seen = []; provider_fills = []; plans = [] }))
          λ x. and_then (reject_orders approved outcome.rejected x.seen) λ seen.
            and_then (require (when (not (length seen == count_intents approved)) other))
              λ u. ok x.plans
