-- ===== src/Ledger/Examples.antt =====
-- The ledger's theorems at a funded account that buys (internal/ledger).
use trading_bot.Ledger.Reversal.{ReversalCommand}
use trading_bot.Base.Ensures.{Ensures}
use trading_bot.Ledger.Order.{upsert_filled_order, new_order, fill_order, remaining_of}
use trading_bot.Ledger.Position.{apply_position, buy_position, bought, new_position}
use trading_bot.Ledger.Error.{require_primary_account}
use trading_bot.Ledger.Solvent.{Solvent, apply_fill-Solvent}
use trading_bot.Ledger.Replay.{apply_fill-once}
use trading_bot.Base.{
  arith, ◌-ℤ◌, ◌*ℤ◌, neg, ℕ, ◌*◌, ◌≡◌, ◌≢◌, refl, sym, ap, Bool, true, false, Option, none, some,
  [], ◌∷◌, String, if◌then◌else◌, str_eq, eq_iff, inl, inr, Bool-cases, pos, ◌+ℤ◌, int_laws, arith,
  is_blank, equal_fold,
}
use trading_bot.Ledger.Rows.{Wallet, LedgerEvent, Database}
use trading_bot.Ledger.Command.{
  FillCommand, prepare, validate_fill, with_cost_model, with_defaults, check_command, with_time,
  string_or_nil, nonempty,
}
use trading_bot.Ledger.Books.{Books}
use trading_bot.Ledger.Fill.{
  Environment, apply_fill, FillResult, fill_transaction, post_fill, charge_wallet, cash_delta_of,
  fill_row, fill_events, fill_event, fee_event,
}
use trading_bot.Ledger.ApplyFill.{apply_fill-Books}
use trading_bot.Ledger.Adjustment.{AdjustmentCommand, apply_adjustment}
use trading_bot.Ledger.AdjustmentLaws.{apply_adjustment-Books}
use trading_bot.Ledger.ReconcileLaws.{reconcile-Books}
use trading_bot.Ledger.Reconcile.{differences}
use trading_bot.Accounting.Decimal.{units, Decimal, add, sub, mul, negate, round_quotient}
use Prim.Native.String.{◌++◌ as append}
use trading_bot.Base.Statements.{ok, err}
use trading_bot.Ledger.Store.{
  Result, transaction, begin_batch, require_ready, create_position, create_order,
}

abbrev pub whole : ℕ → Decimal
whole n = units (pos (n * 1000000000000000000))

abbrev pub environment : Environment
environment = record {
  now = 100;
  payload_hash = λ c. append c.symbol c.side;
  stable_id = append;
  after_write = λ stage. none;
  set_role = none;
  lock_account = λ account. none;
}

abbrev hash_adjustment : AdjustmentCommand → String
hash_adjustment c = c.kind

abbrev pub deposited : LedgerEvent
deposited = record {
  id = "event-adjustmentseed";
  ledger_batch_id = "seed";
  sequence = 1;
  idempotency_key = "seed:adjustment";
  event_type = "capital_deposit";
  account_id = "primary";
  venue_id = "internal";
  currency = "USDT";
  symbol = "";
  cash_delta = whole 1000;
  asset_delta = units (pos 0);
  order_id = none;
  fill_id = none;
  position_id = none;
  execution_mode = "administrative";
  strategy_version = "";
  policy_version = "";
  actor = "operator";
  reason = "seed";
  reverses_event_id = none;
  realized_pnl = units (pos 0);
  cost_basis_delta = units (pos 0);
  fee_delta = units (pos 0);
  occurred_at = 1;
  recorded_at = 1;
}

abbrev pub wallet : Wallet
wallet = record { balance_exact = some (whole 1000); currency = "USDT"; account_id = "primary" }

abbrev pub funded : Database
funded = record {
  wallet = some wallet;
  positions = [];
  orders = [];
  fills = [];
  events = deposited ∷ [];
  batches = [];
  migrations = record { account_id = "primary"; status = "ready" } ∷ [];
  next_position_id = 1;
  next_order_id = 1;
}

idle : (b : Bool) → pos 0 ≡ (if b then pos 0 else pos 0) +ℤ pos 0
idle true = omega int_laws
idle false = omega int_laws

other_currency : (t : String) → t ≢ "USDT" → str_eq "USDT" t ≡ false
other_currency t h = elim (Bool-cases (str_eq "USDT" t)) [
  | inr n ↦ n
  | inl e ↦ absurd (h (sym ((eq_iff "USDT" t).0 e)))
]

pub funded-Books : Books funded
funded-Books = record {
  cash = (refl, omega int_laws, λ t h. rw (other_currency t h) (omega int_laws));
  amounts = λ s. idle (str_eq "" s);
  bases = λ s. idle (str_eq "" s);
  fees = λ s. idle (str_eq "" s);
  profits = λ s. idle (str_eq "" s);
  settled = λ s. tt;
  keyed = tt;
}

abbrev pub currency_of : Option Wallet → String
currency_of none = "USDT"
currency_of (some w) = w.currency

pub same_currency : (w : Wallet) → funded.wallet ≡ some w → w.currency ≡ "USDT"
same_currency w h = sym (ap currency_of h)

abbrev pub buy : FillCommand
buy = record {
  idempotency_key = "fill-1";
  account_id = "";
  symbol = "BTCUSDT";
  side = "buy";
  quantity = whole 2;
  requested_price = whole 100;
  fill_price = whole 101;
  fee = whole 1;
  fee_type = "trading_fee";
  currency = "USDT";
  execution_mode = "paper";
  provider_fill_id = "";
  provider_order_id = "";
  venue_id = "";
  fee_currency = "";
  order_status = "filled";
  existing_order_id = 0;
  client_order_id = "";
  occurred_at = 50;
  actor = "";
  reason = "entry";
  strategy_version = "s1";
  policy_version = "p1";
  cost_model_version = "";
  model_version = "m1";
}

abbrev withdrawal : AdjustmentCommand
withdrawal = record {
  event_id = "";
  idempotency_key = "withdraw-1";
  account_id = "";
  kind = "capital_withdrawal";
  amount = whole 10;
  currency = "USDT";
  actor = "operator";
  reason = "payout";
  occurred_at = 60;
}

apply_fill-Books_example : Books (apply_fill environment buy funded).1
apply_fill-Books_example = apply_fill-Books environment buy funded funded-Books same_currency

apply_adjustment-Books_example :
    Books (apply_adjustment environment hash_adjustment withdrawal funded).1
apply_adjustment-Books_example =
    apply_adjustment-Books environment hash_adjustment funded withdrawal funded-Books same_currency

reconcile-Books_example : differences 100 "primary" funded ≡ ok []
reconcile-Books_example = reconcile-Books 100 funded funded-Books refl wallet refl refl refl

abbrev is_done : Result FillResult × Database → Bool
is_done (ok r, db) = true
is_done (err e, db) = false

done_result :
    (x : Result FillResult × Database) → is_done x ≡ true → (r : FillResult) × (x ≡ (ok r, x.1))
done_result (ok r, db) h = (r, refl)
done_result (err e, db) h = ground arith

-- The purchase succeeds.
buy_done : is_done (apply_fill environment buy funded) ≡ true
unfolding apply_fill prepare require_primary_account validate_fill with_cost_model with_defaults
    check_command with_time transaction fill_transaction begin_batch require_ready post_fill
    charge_wallet cash_delta_of apply_position buy_position create_position bought new_position
    upsert_filled_order new_order fill_order remaining_of create_order fill_row fill_events
    fill_event fee_event is_blank equal_fold add sub mul negate round_quotient string_or_nil
    nonempty ◌-ℤ◌ ◌+ℤ◌ ◌*ℤ◌ neg
buy_done = refl

pub funded-Solvent : Solvent funded
funded-Solvent = record { cash = refl; positions = λ s. tt }

apply_fill-Solvent_example : Solvent (apply_fill environment buy funded).1
apply_fill-Solvent_example = apply_fill-Solvent environment buy funded funded-Books funded-Solvent

abbrev pub later : Environment
later = record environment { now = 500 }

apply_fill-once_example :
    (apply_fill later buy (apply_fill environment buy funded).1).1
    ≡ (apply_fill environment buy funded).1
apply_fill-once_example =
    apply_fill-once environment later buy buy funded (apply_fill environment buy funded).1
      (done_result (apply_fill environment buy funded) buy_done).0 funded-Books
      (done_result (apply_fill environment buy funded) buy_done).1 refl

abbrev reversal : ReversalCommand
reversal = record {
  idempotency_key = "reversal-1";
  original_event_id = "event-adjustmentseed";
  actor = "operator";
  reason = "mistake";
  occurred_at = 70;
}

abbrev hash_reversal : ReversalCommand → String
hash_reversal c = c.original_event_id
