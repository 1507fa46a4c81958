-- ===== src/TradingCore/PolicyLaws.antt =====
-- What a valid risk policy (internal/tradingcore/contracts.go) says of its costs.
use trading_bot.Base.{
  ◌-◌, ◌≡◌, refl, Bool, true, false, ◌||◌, Option, none, some, if◌then◌else◌, arith, ℤ, pos, neg,
  ◌+ℤ◌, ◌-ℤ◌, is_empty, leb_ℤ, ltb_ℤ, ◌^◌, negsuc,
}
use trading_bot.TradingCore.Portfolio.{
  ExecutionCostPolicy, RiskPolicy, PolicyFault, wrap, validate_costs, validate_policy,
}
use trading_bot.TradingCore.RiskCosts.{IsFair}

-- The sum of the basis points is an int64.
abbrev pub FitsInt64 : ExecutionCostPolicy → Type 0
FitsInt64 c = leb_ℤ (c.fee_bps +ℤ c.adverse_slippage_bps) (pos (2 ^ 63 - 1)) ≡ true

IsFair-of :
    (c : ExecutionCostPolicy) (f s : ℤ)
    → c.fee_bps ≡ f
    → c.adverse_slippage_bps ≡ s
    → ltb_ℤ f (pos 0) ≡ false
    → ltb_ℤ s (pos 0) ≡ false
    → leb_ℤ (pos 10000) (wrap (f +ℤ s)) ≡ false
    → leb_ℤ (f +ℤ s) (pos (2 ^ 63 - 1)) ≡ true
    → IsFair c
unfolding ◌+ℤ◌ ◌-ℤ◌ neg
IsFair-of c (pos f) (pos s) p q h k b l = record {
  fee = f;
  slippage = s;
  fee_is = p;
  slippage_is = q;
  below = ground arith;
}
IsFair-of c (pos f) (negsuc s) p q h k b l = ground arith
IsFair-of c (negsuc f) s p q h k b l = ground arith

pub costs-IsFair : (c : ExecutionCostPolicy) → validate_costs c ≡ none → FitsInt64 c → IsFair c
unfolding validate_costs
costs-IsFair c h k =
    (let f =
        facts (is_empty c.version) (ltb_ℤ c.fee_bps (pos 0)) (ltb_ℤ c.adverse_slippage_bps (pos 0))
          (leb_ℤ (pos 10000) (wrap (c.fee_bps +ℤ c.adverse_slippage_bps))) h in
      IsFair-of c c.fee_bps c.adverse_slippage_bps refl refl f.0 f.1 f.2 k)
  where
    facts :
        (a b d e : Bool)
        → (if a
            then some PolicyFault.cost_version_required
            else if b || d || e
            then some PolicyFault.invalid_basis_points
            else none)
          ≡ none
        → (b ≡ false) × (d ≡ false) × (e ≡ false)
    facts a b d e h = ground arith

pub policy-costs :
    (p : RiskPolicy) → validate_policy p ≡ none → validate_costs p.execution_costs ≡ none
unfolding validate_policy
policy-costs p h = last _ _ _ _ (validate_costs p.execution_costs) h
  where
    last :
        (a b c d : Bool) (o : Option PolicyFault)
        → (if a
            then some PolicyFault.version_required
            else if b
            then some PolicyFault.invalid_limits
            else if c
            then some PolicyFault.negative_turnover_or_reserve
            else if d
            then some PolicyFault.negative_counts
            else o)
          ≡ none
        → o ≡ none
    last a b c d o h = ground arith

pub policy-IsFair :
    (p : RiskPolicy)
    → validate_policy p ≡ none
    → FitsInt64 p.execution_costs
    → IsFair p.execution_costs
policy-IsFair p h k = costs-IsFair p.execution_costs (policy-costs p h) k
