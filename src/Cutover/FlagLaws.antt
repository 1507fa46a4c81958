-- ===== src/Cutover/FlagLaws.antt =====
-- What validated flags guarantee (internal/cutover/flags.go).
use mathlib.Core.Path.{subst}
use trading_bot.Base.{
  ◌≡◌, ◌⊎◌, refl, sym, ◌∙◌, true, false, not, ◌&&◌, Option, none, String, str_eq, eq_iff, inl, inr,
  Bool-cases, Option-cases, arith, is_empty, lower_text, trim_text,
}
use trading_bot.Cutover.Flags.{
  Flags, validate, is_live, check_modes, capital_enabled, check_live, check_values,
  authorize_runtime_setting, authorize_mode,
}
use trading_bot.Cutover.Active.{ActiveState, activate_verified, activated, is_digest}

-- The checks that a valid set of flags has passed.
valid_modes : (f : Flags) → validate f ≡ none → check_modes f ≡ none
unfolding validate
valid_modes f h = elim (Option-cases (check_values f)) [
  | inl k ↦ ground (arith, k)
  | inr (e, k) ↦ ground (arith, k)
]

valid_live : (f : Flags) → check_modes f ≡ none → check_live f ≡ none
unfolding check_modes
valid_live f h = ground arith

pub record IsAuthoritative (f : Flags) : Type 0 where
  pub ledger : str_eq f.ledger_authority "authoritative" ≡ true
  pub universe : str_eq f.point_in_time "authoritative" ≡ true
  pub context : is_empty f.stage07_context ≡ false
  pub same_mode : f.shared_engine ≡ f.candidate_strategy

live_authority : (f : Flags) → check_live f ≡ none → is_live f ≡ true → IsAuthoritative f
unfolding check_live
live_authority f h l = record {
  ledger = ground arith;
  universe = ground arith;
  context = ground arith;
  same_mode = (eq_iff f.shared_engine f.candidate_strategy).0 (ground arith);
}

paper_ledger :
    (f : Flags)
    → check_modes f ≡ none
    → str_eq f.shared_engine "paper" ≡ true
    → str_eq f.ledger_authority "authoritative" ≡ true
unfolding check_modes
paper_ledger f h p = ground arith

-- Flags that validate grant live authority only with the authoritative ledger and point-in-time
-- universe, a Stage 07 context, and the same live mode of the engine and the candidate strategy.
pub validate-live : (f : Flags) → validate f ≡ none → is_live f ≡ true → IsAuthoritative f
validate-live f h l = live_authority f (valid_live f (valid_modes f h)) l

-- Flags that validate and enable capital, paper or live, have the authoritative ledger.
pub validate-capital :
    (f : Flags)
    → validate f ≡ none
    → capital_enabled f ≡ true
    → str_eq f.ledger_authority "authoritative" ≡ true
unfolding capital_enabled
validate-capital f h c = elim (Bool-cases (str_eq f.shared_engine "paper")) [
  | inl p ↦ paper_ledger f (valid_modes f h) p
  | inr n ↦ (validate-live f h (rw n at c)).ledger
]

shared_accepted :
    (mode : String) (f : Flags)
    → mode ≡ "shared"
    → authorize_mode mode f ≡ none
    → (str_eq f.shared_engine "paper" ≡ true) × (str_eq f.ledger_authority "authoritative" ≡ true)
unfolding authorize_mode
shared_accepted mode f e a = ground (arith, subst (λ (m : String). authorize_mode m f ≡ none) e a)

paper_not_live :
    (f : Flags)
    → f.shared_engine ≡ "paper"
    → f.shared_engine ≡ f.candidate_strategy
    → is_live f ≡ false
unfolding is_live
paper_not_live f p e = rw (p, sym e ∙ p) refl

-- The runtime setting "shared" is refused under live flags: where validated flags accept it, they
-- are paper flags, with the authoritative ledger and no live mode.
pub authorize-shared :
    (engine_mode : String) (f : Flags)
    → validate f ≡ none
    → str_eq (lower_text (trim_text engine_mode)) "shared" ≡ true
    → authorize_runtime_setting engine_mode f ≡ none
    → (is_live f ≡ false)
      × (capital_enabled f ≡ true)
      × (str_eq f.ledger_authority "authoritative" ≡ true)
unfolding authorize_runtime_setting capital_enabled
authorize-shared engine_mode f h m a =
    let mode = lower_text (trim_text engine_mode) in
    let accepted = shared_accepted mode f ((eq_iff mode "shared").0 m) a in
    let paper = (eq_iff f.shared_engine "paper").0 accepted.0 in
    (
      elim (Bool-cases (is_live f)) [
        | inr n ↦ n
        | inl l ↦ paper_not_live f paper (validate-live f h l).same_mode
      ],
      ground (arith, accepted),
      accepted.1,
    )

-- Active flags that validate, with the digest of the flags where a snapshot is named.
module _ (digest : Flags → Option String) where
  abbrev pub IsVerified : ActiveState → Type 0
  IsVerified state =
      (validate state.flags ≡ none)
      × (not (is_empty state.snapshot_id) && not (is_digest digest state.flags state.snapshot_id)
          ≡ false)

  -- Whatever is activated, in whatever order: if the flags of an initialized process validate and
  -- match the digest of their snapshot, where one is named, then so they do after
  -- `ActivateVerified`, which on an error leaves the state as it was.
  pub activate_verified-IsVerified :
      (f : Flags) (snapshot_id authority : String) (state : ActiveState)
      → (state.initialized ≡ true → IsVerified state)
      → let r = activate_verified digest f snapshot_id authority state in
        (r.1.initialized ≡ true → IsVerified r.1) × ((r.0 ≡ activated) ⊎ (r.1 ≡ state))
  unfolding activate_verified
  activate_verified-IsVerified f snapshot_id authority state v = elim (Option-cases (validate f)) [
    | inr (e, h) ↦ rw (h, activate_verified) (v, inr refl)
    | inl h ↦
        elim (Bool-cases (not (is_empty snapshot_id) && not (is_digest digest f snapshot_id))) [
          | inl k ↦ rw (h, k, activate_verified) (v, inr refl)
          | inr k ↦ rw (h, k, activate_verified) (λ i. (h, k), inl refl)
        ]
  ]
