-- ===== src/Ledger/PaperFill.antt =====
-- `CostedPaperFill` and `CheckReady` of internal/ledger/service.go.
use trading_bot.Ledger.Command.{default_to}
use trading_bot.Base.{
  not, ◌||◌, Option, none, some, String, if◌then◌else◌, str_eq, ℤ, pos, ltb_ℤ, ◌*ℤ◌,
}
use trading_bot.Accounting.Decimal.{Decimal, units, add, sub, mul, div}
use trading_bot.Ledger.Error.{
  Failure, validation, require_primary_account, default_account_id, err_unreconciled_legacy_state,
  record_not_found, err_projection_unavailable,
}
use trading_bot.Ledger.Rows.{Database}
use trading_bot.Ledger.Store.{Result, ok, err, find}
use trading_bot.Ledger.Fill.{Environment}

-- `accounting.MustParse` of a whole number.
abbrev pub whole : ℤ → Decimal
whole z = units (z *ℤ pos 1000000000000000000)

abbrev pub or_nil : Option Decimal → Decimal
or_nil none = record { value = none }
or_nil (some d) = d

-- A number of basis points, as a fraction.
unfoldable pub bps_rate : ℤ → Decimal
bps_rate n = or_nil (div (whole n) (whole (pos 10000)))

unfoldable pub slipped_price : String → Decimal → ℤ → Decimal
slipped_price side requested slippage_bps =
    let slip = bps_rate slippage_bps in
    mul requested
      (if str_eq side "sell" then sub (whole (pos 1)) slip else add (whole (pos 1)) slip)

-- The fill price and the fee.
unfoldable pub costed_paper_fill : String → Decimal → Decimal → ℤ → ℤ → Result (Decimal × Decimal)
costed_paper_fill side quantity requested fee_bps slippage_bps =
    if ltb_ℤ fee_bps (pos 0) || ltb_ℤ slippage_bps (pos 0)
    then err (validation "invalid_fee_bps")
    else let fill = slipped_price side requested slippage_bps in
      ok (fill, mul (mul quantity fill) (bps_rate fee_bps))

-- `CheckReady` on an open database, as the error that it returns. The transaction's error is not
-- normalized here; the role is entered first.
unfoldable pub check_ready : Environment → String → Database → Option Failure
check_ready env command_account db = elim (require_primary_account command_account) [
  | some e ↦ some e
  | none ↦
      let account = default_to default_account_id command_account in
      elim env.set_role [
        | some e ↦ some err_unreconciled_legacy_state
        | none ↦ elim (find (λ s. str_eq s.account_id account) db.migrations) [
          | none ↦ some err_unreconciled_legacy_state
          | some state ↦
              if not (str_eq state.status "ready")
              then some err_unreconciled_legacy_state
              else elim db.wallet [
                | none ↦ some record_not_found
                | some w ↦
                    if not (str_eq w.account_id account)
                    then some record_not_found
                    else elim w.balance_exact [
                      | none ↦ some err_projection_unavailable
                      | some b ↦ none
                    ]
              ]
        ]
      ]
]
