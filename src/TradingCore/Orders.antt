-- ===== src/TradingCore/Orders.antt =====
-- `OrderIntent.Validate`, `NewOrderIntent` and `NewDecisionBatch` of internal/tradingcore/contracts.go.
-- The time 0 is the zero time, and the texts of the errors are left out.
use trading_bot.Base.{
  Bool, true, false, not, ◌||◌, Option, none, some, List, [], ◌∷◌, String, if◌then◌else◌, str_eq,
  ◌==◌, ltb, pos, is_empty, eqb_ℤ, ltb_ℤ, less_text,
}
use trading_bot.Base.Sorting.{sort_stable}
use trading_bot.Base.Statements.{Outcome, ok, err}
use trading_bot.Accounting.Decimal.{Decimal, is_positive}
use trading_bot.TradingCore.Rollout.{ExecutionMode}
use trading_bot.TradingCore.Contracts.{OrderIntent, OrderSide, OrderType, eq_side}

pub data OrderFault : Type 0 where
  identity_required unsupported_type quantity_required negative_priority : OrderFault
  unsupported_semantics unsupported_mode unordered_times limit_price_required : OrderFault

abbrev pub is_known_semantics : String → Bool
is_known_semantics s =
    is_empty s || str_eq s "exact_quantity" || str_eq s "cash_capped" || str_eq s "exit_all"

abbrev is_known_mode : ExecutionMode → Bool
is_known_mode ExecutionMode.other_mode = false
is_known_mode _ = true

abbrev is_known_type : OrderType → Bool
is_known_type OrderType.other_type = false
is_known_type _ = true

abbrev has_limit : OrderType → Option Decimal → Bool
has_limit OrderType.limit_order none = false
has_limit OrderType.limit_order (some price) = is_positive price
has_limit _ price = true

unfoldable pub validate_intent : OrderIntent → Option OrderFault
validate_intent i =
    if is_empty i.id
      || is_empty i.idempotency_key
      || is_empty i.account_id
      || is_empty i.instrument.id
    then some identity_required
    else if not (is_known_type i.order_type)
    then some unsupported_type
    else if not (is_positive i.quantity)
    then some quantity_required
    else if ltb_ℤ i.priority (pos 0)
    then some negative_priority
    else if not (is_known_semantics i.quantity_semantics)
    then some unsupported_semantics
    else if not (is_known_mode i.execution_mode)
    then some unsupported_mode
    else if i.signal_at == 0 || ltb i.decision_at i.signal_at || ltb i.created_at i.decision_at
    then some unordered_times
    else if not (has_limit i.order_type i.limit_price)
    then some limit_price_required
    else none

unfoldable pub new_order_intent :
    OrderIntent → List (String × String) → Outcome OrderFault OrderIntent
new_order_intent intent metadata =
    (let i = record intent {
      metadata = metadata;
      quantity_semantics =
          if is_empty intent.quantity_semantics
          then "exact_quantity"
          else intent.quantity_semantics;
    } in
      elim (validate_intent i) [ none ↦ ok i | some e ↦ err e ])

abbrev less_side : OrderSide → OrderSide → Bool
less_side OrderSide.buy OrderSide.sell = true
less_side _ _ = false

-- The order of a batch: priority, instrument, side, identity.
unfoldable pub comes_before : OrderIntent → OrderIntent → Bool
comes_before i j =
    if not (eqb_ℤ i.priority j.priority)
    then ltb_ℤ i.priority j.priority
    else if not (str_eq i.instrument.id j.instrument.id)
    then less_text i.instrument.id j.instrument.id
    else if not (eq_side i.side j.side)
    then less_side i.side j.side
    else less_text i.id j.id

unfoldable pub first_fault : List OrderIntent → Option OrderFault
first_fault [] = none
first_fault (i ∷ is) = elim (validate_intent i) [ some e ↦ some e | none ↦ first_fault is ]

unfoldable pub new_decision_batch : List OrderIntent → Outcome OrderFault (List OrderIntent)
new_decision_batch intents = elim (first_fault intents) [
  | some e ↦ err e
  | none ↦ ok (sort_stable comes_before intents)
]
