-- ===== src/Governance/Rollout.antt =====
-- The rollout states and principals of internal/governance/service.go: `legal`, `knownState` and
-- `Principal.require`.
use trading_bot.Base.{
  ℕ, suc, ◌≡◌, Bool, true, false, not, ◌&&◌, List, String, str_eq, arith, is_empty, any,
}
use trading_bot.Base.{trim_text}

-- A State is a string: one of the six, the empty one of a context without a deployment, or another.
pub data State : Type 0 where
  no_state research shadow paper limited_live full_live rollback : State
  other_state : String → State

abbrev pub eq_state : State → State → Bool
eq_state no_state no_state = true
eq_state research research = true
eq_state shadow shadow = true
eq_state paper paper = true
eq_state limited_live limited_live = true
eq_state full_live full_live = true
eq_state rollback rollback = true
eq_state (other_state s) (other_state t) = str_eq s t
eq_state _ _ = false

-- The string of a state.
abbrev pub state_name : State → String
state_name no_state = ""
state_name research = "research"
state_name shadow = "shadow"
state_name paper = "paper"
state_name limited_live = "limited_live"
state_name full_live = "full_live"
state_name rollback = "rollback"
state_name (other_state s) = s

-- The map of `legal`; a missing key reads as the empty state.
unfoldable pub next_state : State → State
next_state research = shadow
next_state shadow = paper
next_state paper = limited_live
next_state limited_live = full_live
next_state _ = no_state

unfoldable pub legal : State → State → Bool
unfolding next_state
legal no_state to = eq_state to research
legal from to = eq_state (next_state from) to

unfoldable pub known_state : State → Bool
known_state no_state = false
known_state (other_state s) = false
known_state _ = true

pub data Capability : Type 0 where
  to_research to_approve to_transition to_rollback : Capability

abbrev pub eq_capability : Capability → Capability → Bool
eq_capability to_research to_research = true
eq_capability to_approve to_approve = true
eq_capability to_transition to_transition = true
eq_capability to_rollback to_rollback = true
eq_capability _ _ = false

pub record Principal : Type 0 where
  pub id : String
  pub capabilities : List Capability
  pub trusted : Bool

unfoldable pub new_trusted_principal : String → List Capability → Principal
new_trusted_principal id capabilities = record {
  id = trim_text id;
  capabilities = capabilities;
  trusted = true;
}

-- `Principal.require`: no error.
unfoldable pub allows : Principal → Capability → Bool
allows p capability =
    p.trusted && not (is_empty p.id) && any (eq_capability capability) p.capabilities

-- The place of a state in the rollout.
abbrev pub rank : State → ℕ
rank no_state = 0
rank research = 1
rank shadow = 2
rank paper = 3
rank limited_live = 4
rank full_live = 5
rank _ = 0

-- No stage is skipped: a transition that `legal` and `knownState` accept goes to the next stage of
-- research, shadow, paper, limited live and full live, from none at first; none leads to the
-- rollback state, and none leaves it or full live.
pub legal-rank :
    (from to : State)
    → legal from to ≡ true
    → known_state to ≡ true
    → (rank to ≡ suc (rank from))
      × (eq_state to rollback ≡ false)
      × (eq_state from rollback ≡ false)
      × (eq_state from full_live ≡ false)
unfolding legal next_state known_state
legal-rank from to l k = ground arith
