-- ===== src/TradingCore/RiskRounds.antt =====
-- The totals of the loop of `Evaluate` (internal/tradingcore/risk.go) stay within the limits.
use mathlib.Core.Path.{subst}
use trading_bot.Base.{
  ◌≡◌, ◌⊎◌, refl, sym, Bool, true, ◌&&◌, Option, none, some, List, [], ◌∷◌, ◌++◌, String, inl, inr,
  Bool-cases, Option-cases, arith, ℤ, all, some-injective,
}
use trading_bot.Base.Rational.{Rational}
use trading_bot.Base.Rational.Order.{Positive}
use trading_bot.Accounting.Decimal.{Decimal, is_positive}
use trading_bot.TradingCore.Contracts.{OrderIntent, Instrument}
use trading_bot.TradingCore.Exact.{decimal_rat, quantity_from_rat}
use trading_bot.TradingCore.Portfolio.{RiskPolicy, PortfolioSnapshot, Position}
use trading_bot.TradingCore.Risk.{RiskTotals, Sizing, intent_price, mark_of, same_instrument}
use trading_bot.TradingCore.RiskSizing.{IsSized, size_intent-IsSized}
use trading_bot.TradingCore.RiskCosts.{IsFair, decimal-Positive}
use trading_bot.TradingCore.RiskBounds.{IsWithin, spend-IsWithin}
use trading_bot.TradingCore.RiskEngine.{
  Evaluation, settle_intent, evaluate_intent, evaluate_intents, approve_intent,
}
use trading_bot.TradingCore.RiskRound.{spend, Refusal, size_intent}

-- The prices that an intent and a portfolio hold are positive.
abbrev has_positive : Option Decimal → Bool
has_positive none = true
has_positive (some p) = is_positive p

abbrev pub is_priced : OrderIntent → Bool
is_priced i = has_positive i.reference_price && has_positive i.limit_price

abbrev pub is_marked : PortfolioSnapshot → Bool
is_marked s = all (λ (p : Position). is_positive p.mark_price) s.positions

mark-positive :
    (ps : List Position) (i : Instrument)
    → all (λ (p : Position). is_positive p.mark_price) ps ≡ true
    → has_positive (mark_of ps i) ≡ true
mark-positive [] i h = refl
mark-positive (p ∷ ps) i h = elim (Bool-cases (same_instrument p.instrument i)) [
  | inl k ↦ rw (k) (ground arith)
  | inr k ↦ rw (k) (mark-positive ps i (ground arith))
]

chosen-positive :
    (r l m : Option Decimal) (p : Decimal)
    → (has_positive r && has_positive l) ≡ true
    → has_positive m ≡ true
    → (elim r [ some a ↦ some a | none ↦ elim l [ some a ↦ some a | none ↦ m ] ]) ≡ some p
    → is_positive p ≡ true
chosen-positive (some a) l m p h k e =
    subst (λ (t : Decimal). is_positive t ≡ true) (some-injective a p e) (ground arith)
chosen-positive none (some a) m p h k e =
    subst (λ (t : Decimal). is_positive t ≡ true) (some-injective a p e) (ground arith)
chosen-positive none none (some a) p h k e =
    subst (λ (t : Decimal). is_positive t ≡ true) (some-injective a p e) k
chosen-positive none none none p h k e = ground arith

pub price-Positive :
    (i : OrderIntent) (s : PortfolioSnapshot) (p : Decimal)
    → is_priced i ≡ true
    → is_marked s ≡ true
    → intent_price i s ≡ some p
    → Positive (decimal_rat p)
unfolding intent_price
price-Positive i s p h k e = decimal-Positive p (
    chosen-positive i.reference_price i.limit_price (mark_of s.positions i.instrument) p h
      (mark-positive s.positions i.instrument k) e)

module _ (format_int : ℤ → String) where
  -- An intent is rejected, or a quantity within every limit is taken from the totals.
  abbrev pub IsTallied :
      RiskPolicy → PortfolioSnapshot → OrderIntent → Evaluation → Evaluation → Type 0
  IsTallied policy portfolio i e f =
      ((code : String) × (f.approved ≡ e.approved)
        × (f.totals ≡ e.totals)
        × (f.rejected ≡ e.rejected ++ record { order_id = i.id; code = code } ∷ []))
      ⊎ ((price : Decimal) × (q : Rational) × (d : Decimal) × (intent_price i portfolio
            ≡ some price)
          × IsSized policy i price portfolio.positions e.totals q
          × (quantity_from_rat q ≡ some d)
          × (f.approved ≡ e.approved ++ approve_intent format_int policy d i ∷ [])
          × (f.totals ≡ spend policy i price q e.totals)
          × (f.rejected ≡ e.rejected))

  settle-IsTallied :
      (policy : RiskPolicy) (portfolio : PortfolioSnapshot) (i : OrderIntent) (e : Evaluation)
      (o : Option Decimal) (s : Sizing)
      → intent_price i portfolio ≡ o
      → ((price : Decimal) (q : Rational)
          → o ≡ some price
          → s ≡ (q, none)
          → IsSized policy i price portfolio.positions e.totals q)
      → IsTallied policy portfolio i e (settle_intent format_int policy i o s e)
  unfolding settle_intent
  settle-IsTallied policy portfolio i e o (q, some code) h f = inl (code, refl, refl, refl)
  settle-IsTallied policy portfolio i e none (q, none) h f =
      inl ("valuation_price_required", refl, refl, refl)
  settle-IsTallied policy portfolio i e (some p) (q, none) h f =
      elim (Option-cases (quantity_from_rat q)) [
        | inl k ↦ rw (k, settle_intent) (inl ("quantity_below_lot_size", refl, refl, refl))
        | inr (d, k) ↦
            rw (k, settle_intent) (inr (p, q, d, h, f p q refl refl, k, refl, refl, refl))
      ]

  sizing-IsSized :
      (policy : RiskPolicy) (portfolio : PortfolioSnapshot) (i : OrderIntent) (totals : RiskTotals)
      (o : Option Decimal) (r : Refusal) (price : Decimal) (q : Rational)
      → IsFair policy.execution_costs
      → ((p : Decimal) → o ≡ some p → Positive (decimal_rat p))
      → o ≡ some price
      → size_intent policy portfolio totals i o r ≡ (q, none)
      → IsSized policy i price portfolio.positions totals q
  unfolding size_intent
  sizing-IsSized policy portfolio i totals o (some (c, e)) price q fair p k h = ground arith
  sizing-IsSized policy portfolio i totals none none price q fair p k h = ground arith
  sizing-IsSized policy portfolio i totals (some a) none price q fair p k h =
      subst (λ (t : Decimal). IsSized policy i t portfolio.positions totals q)
        (some-injective a price k)
        (size_intent-IsSized i a portfolio totals policy q fair (p a refl) h)

  round-IsTallied :
      (policy : RiskPolicy) (portfolio : PortfolioSnapshot) (i : OrderIntent) (e : Evaluation)
      → IsFair policy.execution_costs
      → is_priced i ≡ true
      → is_marked portfolio ≡ true
      → IsTallied policy portfolio i e (evaluate_intent format_int policy portfolio i e)
  unfolding evaluate_intent
  round-IsTallied policy portfolio i e fair h k =
      settle-IsTallied policy portfolio i e (intent_price i portfolio) _ refl λ p q a b.
        sizing-IsSized policy portfolio i e.totals (intent_price i portfolio) _ p q fair
          (λ p c. price-Positive i portfolio p h k c) a b

  pub rounds-IsWithin :
      (policy : RiskPolicy) (portfolio : PortfolioSnapshot) (is : List OrderIntent) (e : Evaluation)
      → IsFair policy.execution_costs
      → all is_priced is ≡ true
      → is_marked portfolio ≡ true
      → IsWithin policy e.totals
      → IsWithin policy (evaluate_intents format_int policy portfolio is e).totals
  unfolding evaluate_intents
  rounds-IsWithin policy portfolio [] e fair h k w = w
  rounds-IsWithin policy portfolio (i ∷ is) e fair h k w =
      rounds-IsWithin policy portfolio is (evaluate_intent format_int policy portfolio i e) fair
        (ground arith) k
        (elim (round-IsTallied policy portfolio i e fair (ground arith) k) [
          | inl (code, a, t, r) ↦ subst (λ (x : RiskTotals). IsWithin policy x) (sym t) w
          | inr (p, q, d, m, s, n, a, t, r) ↦
              subst (λ (x : RiskTotals). IsWithin policy x) (sym t)
                (spend-IsWithin policy i p portfolio.positions q e.totals fair
                  (price-Positive i portfolio p (ground arith) k m) s w)
        ])
