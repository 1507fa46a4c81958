-- ===== src/Ledger/FillPostings.antt =====
-- The postings of one fill, summed in each dimension (`ApplyFill` of internal/ledger/service.go).
use trading_bot.Base.{
  ◌≡◌, refl, Bool, true, false, ◌&&◌, List, String, if◌then◌else◌, str_eq, arith, ℤ, pos, neg, ◌+ℤ◌,
  int_laws, Bool-cases, inl, inr,
}
use trading_bot.Accounting.Decimal.{Decimal, integer, negate, is_positive, is_negative}
use trading_bot.Ledger.Error.{default_account_id}
use trading_bot.Ledger.Rows.{Order, Fill, LedgerEvent}
use trading_bot.Ledger.Command.{FillCommand}
use trading_bot.Ledger.Position.{PositionChange}
use trading_bot.Ledger.Fill.{
  Environment, cash_delta_of, asset_delta_of, fill_event, fee_event, fill_events,
}
use trading_bot.Ledger.Books.{posted, in_currency, in_symbol}

-- What the transaction knows of a prepared command.
pub record IsPrepared (c : FillCommand) : Type 0 where
  pub account : str_eq c.account_id default_account_id ≡ true
  pub quantity : is_positive c.quantity ≡ true
  pub fee : is_negative c.fee ≡ false

no_fee : (d : Decimal) → is_negative d ≡ false → is_positive d ≡ false → integer d ≡ pos 0
no_fee d h k = ground arith

-- The sums of a fill's postings, in each dimension.
module _ (env : Environment) (c : FillCommand) (ch : PositionChange) (o : Order) (f : Fill)
    (v : IsPrepared c) where
  abbrev pub events : List LedgerEvent
  events = fill_events env c ch o f

  -- Both events of a fill pass a test on their currency or symbol, or none does.
  posted-events :
      (test : LedgerEvent → Bool) (column : LedgerEvent → Decimal) (b : Bool) (x y : ℤ)
      → test (fill_event env c ch o f) ≡ b
      → test (fee_event env c ch o f) ≡ b
      → integer (column (fill_event env c ch o f)) ≡ x
      → integer (column (fee_event env c ch o f)) ≡ y
      → (integer c.fee ≡ pos 0 → y ≡ pos 0)
      → posted test column events ≡ (if b then x +ℤ y else pos 0)
  unfolding fill_events
  posted-events test column true x y h k e g z = elim (Bool-cases (is_positive c.fee)) [
    | inl p ↦ rw (p, h, k, e, g, in_account.0, in_account.1) (omega int_laws)
    | inr p ↦ rw (p, h, e, in_account.0, z (no_fee c.fee v.fee p)) (omega int_laws)
  ]
    where
      in_account :
          (str_eq (fill_event env c ch o f).account_id default_account_id ≡ true)
          × (str_eq (fee_event env c ch o f).account_id default_account_id ≡ true)
      in_account = unfold fill_event fee_event in (v.account, v.account)
  posted-events test column false x y h k e g z = elim (Bool-cases (is_positive c.fee)) [
    | inl p ↦
        rw (p, h, k)
          (none_posted (str_eq (fill_event env c ch o f).account_id default_account_id)
            (str_eq (fee_event env c ch o f).account_id default_account_id))
    | inr p ↦
        rw (p, h) (one_posted (str_eq (fill_event env c ch o f).account_id default_account_id))
  ]
    where
      none_posted :
          (a b : Bool)
          → (if a && false then integer (column (fill_event env c ch o f)) else pos 0)
              +ℤ ((if b && false then integer (column (fee_event env c ch o f)) else pos 0)
                  +ℤ pos 0)
            ≡ pos 0
      none_posted true true = omega int_laws
      none_posted true false = omega int_laws
      none_posted false true = omega int_laws
      none_posted false false = omega int_laws

      one_posted :
          (a : Bool)
          → (if a && false then integer (column (fill_event env c ch o f)) else pos 0) +ℤ pos 0
            ≡ pos 0
      one_posted true = omega int_laws
      one_posted false = omega int_laws

  pub cash-events :
      (t : String)
      → posted (in_currency t) (λ e. e.cash_delta) events
        ≡ (if str_eq c.currency t then integer (cash_delta_of c) +ℤ neg (integer c.fee) else pos 0)
  unfolding fill_event fee_event negate
  cash-events t =
      posted-events (in_currency t) (λ e. e.cash_delta) (str_eq c.currency t)
        (integer (cash_delta_of c)) (neg (integer c.fee)) refl refl refl refl
        (λ z. rw z (unfold neg in refl))

  pub amount-events :
      (s : String)
      → posted (in_symbol s) (λ e. e.asset_delta) events
        ≡ (if str_eq c.symbol s then integer (asset_delta_of c) +ℤ pos 0 else pos 0)
  unfolding fill_event fee_event
  amount-events s =
      posted-events (in_symbol s) (λ e. e.asset_delta) (str_eq c.symbol s)
        (integer (asset_delta_of c)) (pos 0) refl refl refl refl (λ z. refl)

  pub basis-events :
      (s : String)
      → posted (in_symbol s) (λ e. e.cost_basis_delta) events
        ≡ (if str_eq c.symbol s then integer ch.basis_delta +ℤ pos 0 else pos 0)
  unfolding fill_event fee_event
  basis-events s =
      posted-events (in_symbol s) (λ e. e.cost_basis_delta) (str_eq c.symbol s)
        (integer ch.basis_delta) (pos 0) refl refl refl refl (λ z. refl)

  pub fee-events :
      (s : String)
      → posted (in_symbol s) (λ e. e.fee_delta) events
        ≡ (if str_eq c.symbol s then pos 0 +ℤ integer c.fee else pos 0)
  unfolding fill_event fee_event
  fee-events s =
      posted-events (in_symbol s) (λ e. e.fee_delta) (str_eq c.symbol s) (pos 0) (integer c.fee)
        refl refl refl refl (λ z. z)

  pub profit-events :
      (s : String)
      → posted (in_symbol s) (λ e. e.realized_pnl) events
        ≡ (if str_eq c.symbol s then integer ch.realized +ℤ neg (integer c.fee) else pos 0)
  unfolding fill_event fee_event negate
  profit-events s =
      posted-events (in_symbol s) (λ e. e.realized_pnl) (str_eq c.symbol s) (integer ch.realized)
        (neg (integer c.fee)) refl refl refl refl (λ z. rw z (unfold neg in refl))
