-- ===== src/Cutover/Active.antt =====
-- The active flags of a process (internal/cutover/flags.go). The digest of the flags' JSON is a
-- parameter; `none` is an error of the encoding.
use trading_bot.Base.{
  Bool, true, false, not, ◌&&◌, Option, none, some, String, if◌then◌else◌, str_eq, is_empty,
}
use trading_bot.Cutover.Flags.{Flags, Fault, validate}

pub record ActiveState : Type 0 where
  pub flags : Flags
  pub snapshot_id : String
  pub authority : String
  pub initialized : Bool

pub data Activation : Type 0 where
  activated : Activation
  invalid : Fault → Activation
  digest_mismatch : Activation

module _ (digest : Flags → Option String) where
  abbrev pub is_digest : Flags → String → Bool
  is_digest f id = elim (digest f) [ none ↦ false | some d ↦ str_eq d id ]

  unfoldable pub activate_verified :
      Flags → String → String → ActiveState → Activation × ActiveState
  activate_verified f snapshot_id authority state = elim (validate f) [
    | some e ↦ (invalid e, state)
    | none ↦
        if not (is_empty snapshot_id) && not (is_digest f snapshot_id)
        then (digest_mismatch, state)
        else (
          activated,
          record {
            flags = f;
            snapshot_id = snapshot_id;
            authority = authority;
            initialized = true;
          },
        )
  ]

  unfoldable pub activate : Flags → ActiveState → Activation × ActiveState
  activate f = activate_verified f "" "unverified"

unfoldable pub active : ActiveState → Option Flags
active state = if state.initialized then some state.flags else none
