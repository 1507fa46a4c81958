-- ===== src/Ledger/Error.antt =====
-- internal/ledger/errors.go, and the errors of internal/ledger/service.go. A message is not
-- modelled: callers see the kind and the code.
use trading_bot.Base.{String, Option, none, some, ◌||◌, if◌then◌else◌, str_eq}

pub data ErrorKind : Type 0 where
  validation_kind conflict_kind unavailable_kind indeterminate_kind internal_kind : ErrorKind

pub record Error : Type 0 where
  pub kind : ErrorKind
  pub code : String

-- What a statement can fail with: an error of this package, gorm.ErrRecordNotFound, a PostgreSQL
-- error with its code and the constraint's name, or any other error.
pub data Failure : Type 0 where
  typed : Error → Failure
  record_not_found : Failure
  postgres : String → String → Failure
  other : Failure

abbrev pub new_error : ErrorKind → String → Failure
new_error kind code = typed (record { kind = kind; code = code })

abbrev pub validation : String → Failure
validation = new_error validation_kind

abbrev pub conflict : String → Failure
conflict = new_error conflict_kind

abbrev pub unavailable : String → Failure
unavailable = new_error unavailable_kind

abbrev pub err_unreconciled_legacy_state : Failure
err_unreconciled_legacy_state = unavailable "ledger_not_ready"

abbrev pub err_insufficient_cash : Failure
err_insufficient_cash = conflict "insufficient_cash"

abbrev pub err_insufficient_asset : Failure
err_insufficient_asset = conflict "insufficient_asset"

abbrev pub err_idempotency_conflict : Failure
err_idempotency_conflict = conflict "idempotency_conflict"

abbrev pub err_projection_unavailable : Failure
err_projection_unavailable = unavailable "projection_unavailable"

abbrev pub default_account_id : String
default_account_id = "primary"

-- `requirePrimaryAccount`, as the error that it returns.
unfoldable pub require_primary_account : String → Option Failure
require_primary_account account =
    if str_eq account "" || str_eq account default_account_id
    then none
    else some (validation "unsupported_account")

-- `normalizePersistenceError` on an error.
unfoldable pub normalize_persistence_error : Failure → Failure
normalize_persistence_error (postgres code constraint) =
    if str_eq code "23505"
    then conflict "duplicate_identity"
    else if str_eq code "23503" || str_eq code "23514"
    then conflict "ledger_constraint"
    else new_error internal_kind "persistence_failure"
normalize_persistence_error (typed e) = typed e
normalize_persistence_error _ = new_error internal_kind "persistence_failure"

abbrev pub err_exchange_execution_fenced : Failure
err_exchange_execution_fenced = unavailable "exchange_execution_fenced"
