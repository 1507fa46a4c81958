-- ===== src/Cutover.antt =====
-- internal/cutover: the flags that grant authority, and the state that activates them.
pub mod Flags
pub mod Active
pub mod FlagLaws
pub mod Parity
pub mod ParityRun
pub mod ParityLaws
pub mod ParityVerified
pub mod ParityAccepted
mod Examples
mod ParityExamples
