-- ===== src/TradingCore/OrderLaws.antt =====
-- Valid intents and batches of internal/tradingcore/contracts.go.
use trading_bot.Base.{
  ◌≡◌, refl, Bool, true, false, not, none, some, List, [], ◌∷◌, ◌++◌, String, if◌then◌else◌, inl,
  inr, Option-cases, arith, is_empty,
}
use trading_bot.Base.Statements.{ok}
use trading_bot.TradingCore.Contracts.{OrderIntent}
use trading_bot.TradingCore.Orders.{
  validate_intent, new_order_intent, first_fault, identity_required, is_known_semantics,
  unsupported_type, quantity_required, negative_priority, unsupported_semantics, unsupported_mode,
  unordered_times, limit_price_required, OrderFault,
}

-- Other quantities and semantics that are valid leave an intent valid.
pub revalidated :
    (a b q n s m t l q' s' : Bool)
    → (if a
        then some identity_required
        else if not b
        then some unsupported_type
        else if not q
        then some quantity_required
        else if n
        then some negative_priority
        else if not s
        then some unsupported_semantics
        else if not m
        then some unsupported_mode
        else if t
        then some unordered_times
        else if not l
        then some limit_price_required
        else none)
      ≡ none
    → q' ≡ true
    → s' ≡ true
    → (if a
        then some identity_required
        else if not b
        then some unsupported_type
        else if not q'
        then some quantity_required
        else if n
        then some negative_priority
        else if not s'
        then some unsupported_semantics
        else if not m
        then some unsupported_mode
        else if t
        then some unordered_times
        else if not l
        then some limit_price_required
        else none)
      ≡ none
revalidated a b q n s m t l q' s' h k j = ground arith

pub semantics_of :
    (i : OrderIntent) → validate_intent i ≡ none → is_known_semantics i.quantity_semantics ≡ true
unfolding validate_intent
semantics_of i h = known _ _ _ _ _ _ _ _ h
  where
    known :
        (a b q n s m t l : Bool)
        → (if a
            then some identity_required
            else if not b
            then some unsupported_type
            else if not q
            then some quantity_required
            else if n
            then some negative_priority
            else if not s
            then some unsupported_semantics
            else if not m
            then some unsupported_mode
            else if t
            then some unordered_times
            else if not l
            then some limit_price_required
            else none)
          ≡ none
        → s ≡ true
    known a b q n s m t l h = ground arith

pub default_known :
    (b : Bool) (s : String)
    → is_known_semantics s ≡ true
    → is_known_semantics (if b then "exact_quantity" else s) ≡ true
default_known true s h = refl
default_known false s h = h

pub new_order_intent-ok :
    (i : OrderIntent) (m : List (String × String))
    → validate_intent (record i {
      metadata = m;
      quantity_semantics =
          if is_empty i.quantity_semantics then "exact_quantity" else i.quantity_semantics;
    })
      ≡ none
    → (j : OrderIntent) × (new_order_intent i m ≡ ok j) × (validate_intent j ≡ none) × (j.id ≡ i.id)
unfolding new_order_intent
new_order_intent-ok i m h = (_, rw (h, new_order_intent) refl, h, refl)

pub first_fault-append :
    (is : List OrderIntent) (i : OrderIntent)
    → first_fault is ≡ none
    → validate_intent i ≡ none
    → first_fault (is ++ i ∷ []) ≡ none
unfolding first_fault
first_fault-append [] i h k = rw (k, first_fault) refl
first_fault-append (j ∷ js) i h k = elim (Option-cases (validate_intent j)) [
  | inl p ↦ rw (p, first_fault) (first_fault-append js i (rw (p, first_fault) at h) k)
  | inr (e, p) ↦ absurd (refused e (rw (p, first_fault) at h))
]
  where
    refused : (e : OrderFault) → some e ≡ none → ⊥
    refused e h = ground arith

pub first_fault-head :
    (i : OrderIntent) (is : List OrderIntent)
    → first_fault (i ∷ is) ≡ none
    → (validate_intent i ≡ none) × (first_fault is ≡ none)
unfolding first_fault
first_fault-head i is h = elim (Option-cases (validate_intent i)) [
  | inl p ↦ (p, rw (p, first_fault) at h)
  | inr (e, p) ↦ absurd (refused e (rw (p, first_fault) at h))
]
  where
    refused : (e : OrderFault) → some e ≡ none → ⊥
    refused e h = ground arith
