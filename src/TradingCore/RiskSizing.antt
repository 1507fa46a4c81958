-- ===== src/TradingCore/RiskSizing.antt =====
-- The quantity that the caps and the lot of internal/tradingcore/risk.go leave of an intent.
use mathlib.Core.Path.{subst}
use trading_bot.Base.{
  ◌≡◌, ◌⊎◌, refl, ap, ◌∙◌, Bool, true, false, not, Option, none, some, List, String, if◌then◌else◌,
  inl, inr, Option-cases, arith, pos, some-injective, quo,
}
use trading_bot.Base.Rational.{Rational, of_integer, den, ◌*ℚ◌, ◌/ℚ◌, is_positive_ℚ}
use trading_bot.Base.Rational.Order.{◌≤ℚ◌, ≤ℚ_refl, ≤ℚ_trans, Positive, Positive-NonNegative}
use trading_bot.Base.Rational.Products.{*ℚ_mono_left, floor-le, is_positive_ℚ-Positive}
use trading_bot.Accounting.Decimal.{Decimal, is_positive}
use trading_bot.TradingCore.Contracts.{OrderIntent, OrderSide, Instrument, eq_side}
use trading_bot.TradingCore.Exact.{decimal_rat, normalized_quantity}
use trading_bot.TradingCore.Portfolio.{ExecutionCostPolicy, RiskPolicy, Position, PortfolioSnapshot}
use trading_bot.TradingCore.Risk.{
  RiskTotals, Sizing, cap_by, cap_side, cap_intent, position_quantity, instrument_exposure, cash_of,
  cash_unit, adverse_price,
}
use trading_bot.TradingCore.RiskRound.{fit_lot, size_intent}
use trading_bot.TradingCore.RiskCaps.{
  Fits, Fits-mono, Narrows, cap_by-Fits, cap_cash-Fits, cap_cash-ne-none, cap_holding-Fits,
}
use trading_bot.TradingCore.RiskCosts.{
  IsFair, adverse-Positive, cash_unit-Positive, decimal-Positive,
}

-- The cash of a buy, the holding of a sale.
abbrev pub SideFits :
    OrderSide
    → Decimal
    → Instrument
    → List Position
    → Option Rational
    → ExecutionCostPolicy
    → Rational
    → Type 0
SideFits OrderSide.buy price i positions cash costs q =
    (c : Rational) × (cash ≡ some c) × (q *ℚ cash_unit OrderSide.buy price costs ≤ℚ c)
SideFits OrderSide.sell price i positions cash costs q = q ≤ℚ position_quantity positions i

-- A quantity within every limit.
pub record IsSized (policy : RiskPolicy) (intent : OrderIntent) (price : Decimal)
    (positions : List Position) (totals : RiskTotals) (q : Rational) : Type 0 where
  pub below : q ≤ℚ decimal_rat intent.quantity
  pub positive : Positive q
  pub position :
      Fits
        (eq_side intent.side OrderSide.buy)
        policy.max_position_value
        (instrument_exposure positions intent.instrument)
        (decimal_rat price)
        q
  pub gross :
      Fits
        (eq_side intent.side OrderSide.buy)
        policy.max_gross_exposure
        totals.gross
        (decimal_rat price)
        q
  pub turnover :
      Fits true policy.max_turnover totals.turnover
        (adverse_price intent.side price policy.execution_costs)
        q
  pub side :
      SideFits intent.side price intent.instrument positions
        (cash_of intent.instrument.quote_asset totals.cash)
        policy.execution_costs
        q

cap_side-Fits :
    (side : OrderSide) (price : Decimal) (i : Instrument) (positions : List Position)
    (cash : Option Rational) (policy : RiskPolicy) (s : Sizing) (q : Rational)
    → IsFair policy.execution_costs
    → Positive (decimal_rat price)
    → cap_side side price i positions cash policy s ≡ (q, none)
    → Narrows s q × SideFits side price i positions cash policy.execution_costs q × Positive q
cap_side-Fits OrderSide.buy price i positions none policy s q fair p h =
    absurd (cap_cash-ne-none _ s q h)
cap_side-Fits OrderSide.buy price i positions (some c) policy s q fair p h =
    (let f = cap_cash-Fits _ c s q (cash_unit-Positive price policy.execution_costs fair p) h in
      (f.0, (c, refl, f.1), is_positive_ℚ-Positive q f.2))
cap_side-Fits OrderSide.sell price i positions cash policy s q fair p h =
    (let f = cap_holding-Fits _ s q h in (f.0, f.1, is_positive_ℚ-Positive q f.2))

pub cap_intent-IsSized :
    (intent : OrderIntent) (price : Decimal) (positions : List Position) (totals : RiskTotals)
    (policy : RiskPolicy) (q : Rational)
    → IsFair policy.execution_costs
    → Positive (decimal_rat price)
    → cap_intent (decimal_rat intent.quantity) intent price positions totals policy ≡ (q, none)
    → IsSized policy intent price positions totals q
unfolding cap_intent
cap_intent-IsSized intent price positions totals policy q fair p h =
    (let buys = eq_side intent.side OrderSide.buy in
      let reference : Rational = decimal_rat price in
      let adverse = adverse_price intent.side price policy.execution_costs in
      let exposure = instrument_exposure positions intent.instrument in
      let s1 : Sizing =
        cap_by buys policy.max_position_value exposure reference "per_position_exposure_exceeded"
          (decimal_rat intent.quantity, none) in
      let s2 : Sizing =
        cap_by buys policy.max_gross_exposure totals.gross reference "total_exposure_exceeded" s1 in
      let s3 : Sizing =
        cap_by true policy.max_turnover totals.turnover adverse "turnover_exceeded" s2 in
      let last =
        cap_side-Fits intent.side price intent.instrument positions
          (cash_of intent.instrument.quote_asset totals.cash) policy s3 q fair p h in
      let third =
        cap_by-Fits true policy.max_turnover totals.turnover adverse "turnover_exceeded" s2 s3.0
          (adverse-Positive intent.side price policy.execution_costs fair p)
          (ap (λ (o : Option String). (s3.0, o)) last.0.0) in
      let second =
        cap_by-Fits buys policy.max_gross_exposure totals.gross reference "total_exposure_exceeded"
          s1 s2.0 p (ap (λ (o : Option String). (s2.0, o)) third.0.0) in
      let first =
        cap_by-Fits buys policy.max_position_value exposure reference
          "per_position_exposure_exceeded" (decimal_rat intent.quantity, none) s1.0 p
          (ap (λ (o : Option String). (s1.0, o)) second.0.0) in
      let q-s2 = ≤ℚ_trans q s3.0 s2.0 last.0.1 third.0.1 in
      let q-s1 = ≤ℚ_trans q s2.0 s1.0 q-s2 second.0.1 in
      record {
        below = ≤ℚ_trans q s1.0 (decimal_rat intent.quantity) q-s1 first.0.1;
        positive = last.2;
        position =
            Fits-mono buys policy.max_position_value exposure reference q s1.0
              (Positive-NonNegative reference p) q-s1 first.1;
        gross =
            Fits-mono buys policy.max_gross_exposure totals.gross reference q s2.0
              (Positive-NonNegative reference p) q-s2 second.1;
        turnover =
            Fits-mono true policy.max_turnover totals.turnover adverse q s3.0
              (Positive-NonNegative adverse
                (adverse-Positive intent.side price policy.execution_costs fair p))
              last.0.1 third.1;
        side = last.1;
      })

SideFits-mono :
    (side : OrderSide) (price : Decimal) (i : Instrument) (positions : List Position)
    (cash : Option Rational) (costs : ExecutionCostPolicy) (q r : Rational)
    → IsFair costs
    → Positive (decimal_rat price)
    → q ≤ℚ r
    → SideFits side price i positions cash costs r
    → SideFits side price i positions cash costs q
SideFits-mono OrderSide.buy price i positions cash costs q r fair p le (c, e, h) = (
  c,
  e,
  ≤ℚ_trans (q *ℚ cash_unit OrderSide.buy price costs) (r *ℚ cash_unit OrderSide.buy price costs) c
      (*ℚ_mono_left q r (cash_unit OrderSide.buy price costs)
        (Positive-NonNegative (cash_unit OrderSide.buy price costs)
          (cash_unit-Positive price costs fair p))
        le)
      h,
)
SideFits-mono OrderSide.sell price i positions cash costs q r fair p le h =
    ≤ℚ_trans q r (position_quantity positions i) le h

pub lot_ends :
    (a b c : Bool) (v r q : Rational)
    → (if not a then none else if not b then some v else if c then some r else none) ≡ some q
    → ((b ≡ false) × (v ≡ q)) ⊎ ((b ≡ true) × (c ≡ true) × (r ≡ q))
lot_ends false b c v r q h = ground arith
lot_ends true false c v r q h = inl (refl, some-injective v q h)
lot_ends true true false v r q h = ground arith
lot_ends true true true v r q h = inr (refl, refl, some-injective r q h)

normalized_quantity-le :
    (v q : Rational) (lot : Decimal)
    → Positive v
    → normalized_quantity v lot ≡ some q
    → (q ≤ℚ v) × Positive q
unfolding normalized_quantity
normalized_quantity-le v q lot p h =
    elim (lot_ends (is_positive_ℚ v) (is_positive lot) (is_positive_ℚ whole) v whole q h) [
      | inl (b, e) ↦
          (subst (λ (t : Rational). t ≤ℚ v) e (≤ℚ_refl v), subst (λ (t : Rational). Positive t) e p)
      | inr (b, c, e) ↦ (
        subst (λ (t : Rational). t ≤ℚ v) e
            (floor-le v step (Positive-NonNegative v p) (decimal-Positive lot b)),
        is_positive_ℚ-Positive q (subst (λ (t : Rational). is_positive_ℚ t ≡ true) e c),
      )
    ]
  where
    step : Rational
    step = decimal_rat lot

    whole : Rational
    whole = of_integer (quo (v /ℚ step).num (pos (den (v /ℚ step)))) *ℚ step

IsSized-mono :
    (intent : OrderIntent) (price : Decimal) (positions : List Position) (totals : RiskTotals)
    (policy : RiskPolicy) (q r : Rational)
    → IsFair policy.execution_costs
    → Positive (decimal_rat price)
    → (q ≤ℚ r) × Positive q
    → IsSized policy intent price positions totals r
    → IsSized policy intent price positions totals q
IsSized-mono intent price positions totals policy q r fair p le s = record {
  below = ≤ℚ_trans q r (decimal_rat intent.quantity) le.0 s.below;
  positive = le.1;
  position =
      Fits-mono (eq_side intent.side OrderSide.buy) policy.max_position_value
        (instrument_exposure positions intent.instrument) (decimal_rat price) q r
        (Positive-NonNegative (decimal_rat price) p) le.0 s.position;
  gross =
      Fits-mono (eq_side intent.side OrderSide.buy) policy.max_gross_exposure totals.gross
        (decimal_rat price) q r (Positive-NonNegative (decimal_rat price) p) le.0 s.gross;
  turnover =
      Fits-mono true policy.max_turnover totals.turnover
        (adverse_price intent.side price policy.execution_costs) q r
        (Positive-NonNegative (adverse_price intent.side price policy.execution_costs)
          (adverse-Positive intent.side price policy.execution_costs fair p))
        le.0 s.turnover;
  side =
      SideFits-mono intent.side price intent.instrument positions
        (cash_of intent.instrument.quote_asset totals.cash) policy.execution_costs q r fair p le.0
        s.side;
}

pub fit_lot-le :
    (policy : RiskPolicy) (s : Sizing) (q : Rational)
    → fit_lot policy s ≡ (q, none)
    → (r : Rational) × (s ≡ (r, none)) × (normalized_quantity r policy.lot_size ≡ some q)
unfolding fit_lot
fit_lot-le policy (r, some e) q h = ground arith
fit_lot-le policy (r, none) q h = elim (Option-cases (normalized_quantity r policy.lot_size)) [
  | inl e ↦ absurd (refused (rw (e, fit_lot) at h))
  | inr (t, e) ↦ (r, refl, e ∙ ap some (ap (λ (s : Sizing). s.0) (rw (e, fit_lot) at h)))
]
  where
    refused : ◌≡◌ {A = Sizing} (r, some "quantity_below_lot_size") (q, none) → ⊥
    refused h = ground arith

-- A quantity that is not rejected is within every limit.
pub size_intent-IsSized :
    (intent : OrderIntent) (price : Decimal) (portfolio : PortfolioSnapshot) (totals : RiskTotals)
    (policy : RiskPolicy) (q : Rational)
    → IsFair policy.execution_costs
    → Positive (decimal_rat price)
    → size_intent policy portfolio totals intent (some price) none ≡ (q, none)
    → IsSized policy intent price portfolio.positions totals q
unfolding size_intent
size_intent-IsSized intent price portfolio totals policy q fair p h =
    (let (r, e, n) =
        fit_lot-le policy
          (cap_intent (decimal_rat intent.quantity) intent price portfolio.positions totals policy)
          q h in
      let sized = cap_intent-IsSized intent price portfolio.positions totals policy r fair p e in
      IsSized-mono intent price portfolio.positions totals policy q r fair p
        (normalized_quantity-le r q policy.lot_size sized.positive n) sized)
