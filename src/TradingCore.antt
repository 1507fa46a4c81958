-- ===== src/TradingCore.antt =====
-- internal/tradingcore: exits, the authority of models, orders, the risk engine and the orchestrator,
-- shared by every execution mode.
pub mod Exits
pub mod Rollout
pub mod Contracts
pub mod Orders
pub mod Exact
pub mod Portfolio
pub mod Risk
pub mod Orchestrator
pub mod RiskRound
pub mod RiskEngine
pub mod RiskCosts
pub mod OrderLaws
pub mod RiskCaps
pub mod RiskSizing
pub mod RiskLots
pub mod RiskBounds
pub mod RiskTally
pub mod RiskGranted
pub mod PolicyLaws
pub mod RiskRounds
pub mod RiskVerdict
pub mod RiskAnswers
pub mod RunLaws
mod Examples
mod RunExamples
mod RiskExamples
