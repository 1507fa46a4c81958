-- ===== src/TradingCore/RiskVerdict.antt =====
-- What one round of `Evaluate` (internal/tradingcore/risk.go) does with an intent, and the limits
-- over all rounds.
use trading_bot.Base.{◌≡◌, ◌⊎◌, some, List, [], ◌∷◌, ◌++◌, String, ℤ}
use trading_bot.Base.Rational.{Rational}
use trading_bot.Base.Rational.Order.{Positive}
use trading_bot.Accounting.Decimal.{Decimal}
use trading_bot.TradingCore.Contracts.{OrderIntent}
use trading_bot.TradingCore.Exact.{decimal_rat, quantity_from_rat}
use trading_bot.TradingCore.Portfolio.{RiskPolicy, PortfolioSnapshot}
use trading_bot.TradingCore.Risk.{RiskTotals, intent_price}
use trading_bot.TradingCore.RiskSizing.{IsSized}
use trading_bot.TradingCore.RiskTally.{IsSpent}
use mathlib.Core.List.{map}
use trading_bot.TradingCore.RiskEngine.{Evaluation, approve_intent}

-- Approved without a rounding error: the quantity is within every limit and what it costs is taken.
abbrev pub IsGranted :
    RiskPolicy → PortfolioSnapshot → OrderIntent → Decimal → RiskTotals → RiskTotals → Type 0
IsGranted policy portfolio i d t u =
    (price : Decimal) × (intent_price i portfolio ≡ some price)
    × IsSized policy i price portfolio.positions t (decimal_rat d)
    × IsSpent policy i price (decimal_rat d) t u

-- A list of intents and their approved quantities, granted one after another.
abbrev pub AreGranted :
    RiskPolicy → PortfolioSnapshot → List (OrderIntent × Decimal) → RiskTotals → RiskTotals → Type 0
AreGranted policy portfolio [] t u = u ≡ t
AreGranted policy portfolio ((i, d) ∷ gs) t u =
    (v : RiskTotals) × IsGranted policy portfolio i d t v × AreGranted policy portfolio gs v u

module _ (format_int : ℤ → String) where
  -- An intent is rejected, or approved with a quantity within every limit, which is spent.
  abbrev pub IsSettled :
      RiskPolicy → PortfolioSnapshot → OrderIntent → Evaluation → Evaluation → Type 0
  IsSettled policy portfolio i e f =
      ((code : String) × (f.approved ≡ e.approved)
        × (f.totals ≡ e.totals)
        × (f.rejected ≡ e.rejected ++ record { order_id = i.id; code = code } ∷ []))
      ⊎ ((d : Decimal) × IsGranted policy portfolio i d e.totals f.totals
          × (f.approved ≡ e.approved ++ approve_intent format_int policy d i ∷ [])
          × (f.rejected ≡ e.rejected))

  -- What the sizing must tell of a quantity that is not rejected.
  abbrev IsExact :
      RiskPolicy → PortfolioSnapshot → OrderIntent → RiskTotals → Decimal → Rational → Type 0
  IsExact policy portfolio i t price q =
      Positive (decimal_rat price)
      × IsSized policy i price portfolio.positions t q
      × ((d : Decimal) → quantity_from_rat q ≡ some d → decimal_rat d ≡ q)

  -- The approved intents of a batch, granted one after another, are the ones that are appended.
  abbrev pub IsAnswered : RiskPolicy → PortfolioSnapshot → Evaluation → Evaluation → Type 0
  IsAnswered policy portfolio e f =
      (gs : List (OrderIntent × Decimal)) × (f.approved
        ≡ e.approved
          ++ map (λ (g : OrderIntent × Decimal). approve_intent format_int policy g.1 g.0) gs)
      × AreGranted policy portfolio gs e.totals f.totals
