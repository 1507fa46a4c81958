-- ===== src/Ledger/ReversalLaws.antt =====
-- An event is reversed once at most (`ReverseCashEvent` of internal/ledger/adjustment.go).
use trading_bot.Base.Ensures.{Ensures}
use trading_bot.Ledger.Reversal.{reverses}
use trading_bot.Ledger.Rows.{Database, LedgerEvent}
use trading_bot.Base.{ℕ, suc, ◌≤◌, List, [], ◌∷◌, String, if◌then◌else◌}

-- How many events reverse the event with this identifier.
abbrev pub reversals : String → List LedgerEvent → ℕ
reversals id [] = 0
reversals id (e ∷ es) = let rest = reversals id es in if reverses id e then suc rest else rest

abbrev pub IsReversedOnce : Database → Type 0
IsReversedOnce db = (id : String) → reversals id db.events ≤ 1
