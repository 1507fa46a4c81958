-- ===== src/Accounting.antt =====
-- internal/accounting: the exact decimal numbers of the ledger.
pub mod Decimal
pub mod Rounding
pub mod Text
pub mod Digits
pub mod RoundTrip
mod Examples
