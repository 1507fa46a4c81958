-- ===== src/Ledger/Position.antt =====
-- `applyPosition` of internal/ledger/service.go: the position's exact projections under a fill.
use trading_bot.Base.{
  Bool, true, false, not, ◌&&◌, ◌||◌, Option, none, some, if◌then◌else◌, str_eq, ltb_ℤ, pos,
}
use trading_bot.Accounting.Decimal.{Decimal, add, sub, negate, mul_div, cmp, is_zero, zero}
use trading_bot.Ledger.Error.{err_projection_unavailable, err_insufficient_asset}
use trading_bot.Ledger.Rows.{Position}
use trading_bot.Ledger.Store.{
  Statement, ◌>>=◌, ◌>>◌, pure, fail, get, find_position, create_position, save_position,
}
use trading_bot.Ledger.Command.{FillCommand, nonempty, string_or_nil}

-- What a fill does to a position: the row, the realized profit and the change of the cost basis.
pub record PositionChange : Type 0 where
  pub position : Position
  pub realized : Decimal
  pub basis_delta : Decimal

abbrev pub or_zero : Option Decimal → Decimal
or_zero none = zero
or_zero (some d) = d

abbrev pub is_set : Option Decimal → Bool
is_set none = false
is_set (some d) = true

abbrev pub is_open : Position → Bool
is_open p = str_eq p.status "open"

-- `AmountExact` and `CostBasisExact` are both there.
abbrev pub is_exact : Position → Bool
is_exact p = is_set p.amount_exact && is_set p.cost_basis_exact

unfoldable pub new_position : FillCommand → Position
new_position c = record {
  id = 0;
  symbol = c.symbol;
  account_id = c.account_id;
  amount_exact = none;
  cost_basis_exact = none;
  realized_pnl_exact = none;
  fees_exact = none;
  execution_mode = "";
  exit_pending = false;
  last_mark_at = none;
  strategy_version = "";
  policy_version = "";
  status = "open";
  opened_at = c.occurred_at;
  closed_at = none;
  close_reason = none;
}

unfoldable pub reopen : FillCommand → Position → Position
reopen c p = record p {
  status = "open";
  opened_at = c.occurred_at;
  closed_at = none;
  close_reason = none;
  amount_exact = none;
  cost_basis_exact = none;
}

-- The assignments of the buy branch.
unfoldable pub bought : Bool → FillCommand → Decimal → Position → Position
unfolding nonempty
bought opening_cycle c gross p = record p {
  amount_exact = some (add (or_zero p.amount_exact) c.quantity);
  cost_basis_exact = some (add (or_zero p.cost_basis_exact) gross);
  execution_mode = c.execution_mode;
  policy_version = c.policy_version;
  strategy_version =
      if opening_cycle
      then nonempty c.strategy_version (nonempty c.model_version "manual-execution")
      else p.strategy_version;
  exit_pending = false;
  last_mark_at = some c.occurred_at;
  realized_pnl_exact = some (sub (or_zero p.realized_pnl_exact) c.fee);
  fees_exact = some (add (or_zero p.fees_exact) c.fee);
}

abbrev pub bought_change : Decimal → Position → PositionChange
bought_change gross p = record { position = p; realized = zero; basis_delta = gross }

unfoldable pub buy_position : FillCommand → Decimal → Option Position → Statement PositionChange
buy_position c gross none = do
  p ← create_position (bought true c gross (new_position c))
  pure (bought_change gross p)
buy_position c gross (some p) = if not (is_exact p) then fail err_projection_unavailable else do
  q ← save_position (if is_open p then bought false c gross p else bought true c gross (reopen c p))
  pure (bought_change gross q)

-- The assignments of the sell branch, with the basis that the fill releases.
unfoldable pub sold : FillCommand → Decimal → Decimal → Position → PositionChange
unfolding string_or_nil
sold c gross released p =
    let realized = sub gross released in
    let new_quantity = sub (or_zero p.amount_exact) c.quantity in
    let closing = is_zero new_quantity in
    record {
      position = record p {
        amount_exact = some new_quantity;
        cost_basis_exact = some (sub (or_zero p.cost_basis_exact) released);
        realized_pnl_exact = some (add (or_zero p.realized_pnl_exact) (sub realized c.fee));
        fees_exact = some (add (or_zero p.fees_exact) c.fee);
        last_mark_at = some c.occurred_at;
        exit_pending = false;
        status = if closing then "closed" else p.status;
        closed_at = if closing then some c.occurred_at else p.closed_at;
        close_reason = if closing then string_or_nil c.reason else p.close_reason;
      };
      realized = realized;
      basis_delta = negate released;
    }

-- `releasedBasis, _ := oldBasis.MulDiv(...)`: the error's value is the nil Decimal.
unfoldable pub released_basis : FillCommand → Position → Decimal
released_basis c p =
    elim (mul_div (or_zero p.cost_basis_exact) c.quantity (or_zero p.amount_exact)) [
      | some d ↦ d
      | none ↦ record { value = none }
    ]

unfoldable pub sell_position : FillCommand → Decimal → Option Position → Statement PositionChange
sell_position c gross none = fail err_projection_unavailable
sell_position c gross (some p) =
    if not (is_open p) || not (is_exact p)
    then fail err_projection_unavailable
    else if ltb_ℤ (pos 0) (cmp c.quantity (or_zero p.amount_exact))
    then fail err_insufficient_asset
    else do
      let change = sold c gross (released_basis c p) p
      save_position change.position
      pure change

unfoldable pub apply_position : FillCommand → Decimal → Statement PositionChange
apply_position c gross = do
  found ← get (λ db. find_position c.account_id c.symbol db.positions)
  if str_eq c.side "buy" then buy_position c gross found else sell_position c gross found
