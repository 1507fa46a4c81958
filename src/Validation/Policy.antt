-- ===== src/Validation/Policy.antt =====
-- The policy envelopes of internal/validation/policy.go. A map is the list of its entries, each key
-- once; the numbers' text and the JSON are given.
use trading_bot.Base.{
  Bool, false, not, ◌||◌, Option, none, some, List, [], ◌∷◌, String, if◌then◌else◌, str_eq, ◌==◌,
  ltb, pos, is_empty, eqb_ℤ,
}
use trading_bot.Base.Float.{Float, finite, units}
use trading_bot.Base.{pos, length, lower_text, trim_text}
use trading_bot.Base.Entries.{set_key}
use trading_bot.Base.Statements.{Outcome, ok, err}

-- What the code takes from strconv, encoding/json and crypto/sha256.
pub record PolicyCodec : Type 0 where
  pub parse_float : String → Option Float
  pub format_float : Float → String
  pub policy_digest : String → List (String × String) → String

pub record AuthorityPolicyEnvelope : Type 0 where
  pub schema_version : String
  pub payload : List (String × String)
  pub digest : String

pub data PolicyError : Type 0 where
  incomplete_payload empty_entry digest_mismatch : PolicyError

abbrev pub policy_schema_version : String
policy_schema_version = "authority-policy-envelope-v1"

abbrev pub is_zero_float : Float → Bool
is_zero_float (units n) = eqb_ℤ n (pos 0)
is_zero_float _ = false

module _ (codec : PolicyCodec) where
  -- The words that `canonicalPolicyScalar` reads without regard to case.
  unfoldable pub canonical_word : String → String
  canonical_word value =
      if str_eq (lower_text value) "true"
      then "true"
      else if str_eq (lower_text value) "false"
      then "false"
      else value

  unfoldable pub canonical_policy_scalar : String → String
  canonical_policy_scalar value = elim (codec.parse_float value) [
    | none ↦ canonical_word value
    | some parsed ↦
        if not (finite parsed)
        then canonical_word value
        else if is_zero_float parsed
        then "0"
        else codec.format_float parsed
  ]

  -- The loop of `NewAuthorityPolicyEnvelope` over the payload.
  unfoldable pub normalize :
      List (String × String) → List (String × String) → Option (List (String × String))
  normalize [] done = some done
  normalize ((k, v) ∷ xs) done =
      let rest =
        normalize xs (set_key (trim_text k) (canonical_policy_scalar (trim_text v)) done) in
      if is_empty (trim_text k) || is_empty (trim_text v) then none else rest

  unfoldable pub new_authority_policy_envelope :
      List (String × String) → Outcome PolicyError AuthorityPolicyEnvelope
  new_authority_policy_envelope payload =
      if length payload == 0 || ltb 256 (length payload)
      then err incomplete_payload
      else elim (normalize payload []) [
        | none ↦ err empty_entry
        | some normalized ↦ ok (record {
          schema_version = policy_schema_version;
          payload = normalized;
          digest = codec.policy_digest policy_schema_version normalized;
        })
      ]

  unfoldable pub verify_policy : AuthorityPolicyEnvelope → Option PolicyError
  verify_policy e = elim (new_authority_policy_envelope e.payload) [
    | err f ↦ some f
    | ok expected ↦
        if not (str_eq e.schema_version expected.schema_version)
          || not (str_eq e.digest expected.digest)
        then some digest_mismatch
        else none
  ]

  unfoldable pub with_rollout_state :
      AuthorityPolicyEnvelope → String → Outcome PolicyError AuthorityPolicyEnvelope
  with_rollout_state e state =
      new_authority_policy_envelope (set_key "rollout_state" (trim_text state) e.payload)
