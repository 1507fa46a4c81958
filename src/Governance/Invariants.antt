-- ===== src/Governance/Invariants.antt =====
-- What stays true of the deployments over any sequence of operations of
-- internal/governance/service.go.
use trading_bot.Governance.Transition.{state_of}
use mathlib.Core.Path.{subst}
use trading_bot.Governance.Recorded.{Recorded}
use trading_bot.Governance.Monitoring.{is_backed, backs}
use trading_bot.Governance.Store.{deployment_of, transition_by_id}
use trading_bot.Governance.Rows.{Tables, GovernanceDeployment, GovernanceTransition}
use trading_bot.Governance.Rollout.{
  State, legal, next_state, known_state, eq_state, research, no_state, shadow, paper, limited_live,
  full_live, rollback, other_state,
}
use trading_bot.Governance.Environment.{Environment}
use trading_bot.Base.{
  ◌≡◌, refl, sym, ap, ◌∙◌, Bool, true, false, ◌&&◌, ◌||◌, Option, none, some, List, [], ◌∷◌, ◌++◌,
  String, str_eq, eq_iff, eq_refl, inl, inr, Bool-cases, Option-cases, arith, any, any-append_one,
  some-injective,
}

-- The log has a transition of this context to this state.
unfoldable pub went : String → State → List GovernanceTransition → Bool
went k s ts = any (λ t. str_eq t.context_key k && eq_state t.to_state s) ts

-- The log has a transition of the context to the state and to every stage before it.
abbrev pub staged : String → State → List GovernanceTransition → Bool
staged k research ts = went k research ts
staged k shadow ts = went k shadow ts && went k research ts
staged k paper ts = went k paper ts && went k shadow ts && went k research ts
staged k limited_live ts =
    went k limited_live ts && went k paper ts && went k shadow ts && went k research ts
staged k full_live ts =
    went k full_live ts
    && went k limited_live ts
    && went k paper ts
    && went k shadow ts
    && went k research ts
staged k rollback ts = went k rollback ts
staged k _ ts = false

abbrev pub IsStaged : Tables → Type 0
IsStaged db =
    (k : String) (d : GovernanceDeployment)
    → deployment_of k db.deployments ≡ some d
    → staged k d.state db.transitions ≡ true

abbrev pub IsBacked : Environment → Tables → Type 0
IsBacked env db =
    (k : String) (d : GovernanceDeployment)
    → deployment_of k db.deployments ≡ some d
    → is_backed env db.transitions d ≡ true

-- The context's deployment is in the rollback state.
abbrev pub IsRolledBack : String → Tables → Type 0
IsRolledBack k db = state_of (deployment_of k db.deployments) ≡ rollback

by_id-append :
    (id : String) (ts : List GovernanceTransition) (t u : GovernanceTransition)
    → transition_by_id id ts ≡ some u
    → transition_by_id id (ts ++ t ∷ []) ≡ some u
by_id-append id [] t u h = ground arith
by_id-append id (x ∷ xs) t u h = ground (arith, by_id-append id xs t u)

by_id-append_new :
    (ts : List GovernanceTransition) (t : GovernanceTransition)
    → transition_by_id t.id ts ≡ none
    → transition_by_id t.id (ts ++ t ∷ []) ≡ some t
by_id-append_new [] t h = rw (eq_refl t.id) refl
by_id-append_new (x ∷ xs) t h = ground (arith, by_id-append_new xs t)

backed_some :
    (env : Environment) (d : GovernanceDeployment) (o : Option GovernanceTransition)
    → backs env o d ≡ true
    → (u : GovernanceTransition) × (o ≡ some u)
backed_some env d none h = ground arith
backed_some env d (some u) h = (u, refl)

-- Nothing legal leaves the rollback state.
rollback_final : (to : State) → legal rollback to ≡ true → known_state to ≡ true → ⊥
unfolding legal next_state known_state
rollback_final to l k = ground arith

is_backed-append :
    (env : Environment) (d : GovernanceDeployment) (ts : List GovernanceTransition)
    (t : GovernanceTransition)
    → is_backed env ts d ≡ true
    → is_backed env (ts ++ t ∷ []) d ≡ true
unfolding is_backed
is_backed-append env d ts t h =
    let (u, e) : (u : GovernanceTransition) × (transition_by_id d.transition_id ts ≡ some u) =
      backed_some env d (transition_by_id d.transition_id ts) h in
    ap (λ o. backs env o d) (by_id-append d.transition_id ts t u e)
    ∙ (ap (λ o. backs env o d) (sym e) ∙ h)

eq_state_same : (s : State) → eq_state s s ≡ true
eq_state_same (other_state s) = eq_refl s
eq_state_same s = ground arith

module _ (k : String) (s : State) (ts : List GovernanceTransition) (t : GovernanceTransition) where
  went_keeps : went k s ts ≡ true → went k s (ts ++ t ∷ []) ≡ true
  unfolding went
  went_keeps h =
      any-append_one (λ x. str_eq x.context_key k && eq_state x.to_state s) ts t
      ∙ ap (λ b. b || (str_eq t.context_key k && eq_state t.to_state s)) h

  went_now :
      str_eq t.context_key k ≡ true → eq_state t.to_state s ≡ true → went k s (ts ++ t ∷ []) ≡ true
  unfolding went
  went_now c e =
      any-append_one (λ x. str_eq x.context_key k && eq_state x.to_state s) ts t
      ∙ either (went k s ts) (str_eq t.context_key k) (eq_state t.to_state s) c e
    where
      either : (a b c : Bool) → b ≡ true → c ≡ true → (a || (b && c)) ≡ true
      either a b c h g = ground arith

staged-append :
    (k : String) (s : State) (ts : List GovernanceTransition) (t : GovernanceTransition)
    → staged k s ts ≡ true
    → staged k s (ts ++ t ∷ []) ≡ true
staged-append k s ts t h = ground (
  arith,
  went_keeps k research ts t,
  went_keeps k shadow ts t,
  went_keeps k paper ts t,
  went_keeps k limited_live ts t,
  went_keeps k full_live ts t,
  went_keeps k rollback ts t,
)

module _ (k : String) (ts : List GovernanceTransition) (t : GovernanceTransition) where
  staged_next :
      (from to : State)
      → legal from to ≡ true
      → known_state to ≡ true
      → (eq_state from no_state || staged k from ts) ≡ true
      → str_eq t.context_key k ≡ true
      → eq_state t.to_state to ≡ true
      → staged k to (ts ++ t ∷ []) ≡ true
  unfolding legal next_state known_state
  staged_next no_state research l n h c e = went_now k research ts t c e
  staged_next research shadow l n h c e =
      ground (arith, went_now k shadow ts t c e, staged-append k research ts t h)
  staged_next shadow paper l n h c e =
      ground (arith, went_now k paper ts t c e, staged-append k shadow ts t h)
  staged_next paper limited_live l n h c e =
      ground (arith, went_now k limited_live ts t c e, staged-append k paper ts t h)
  staged_next limited_live full_live l n h c e =
      ground (arith, went_now k full_live ts t c e, staged-append k limited_live ts t h)
  staged_next from to l n h c e = ground arith

module _ (env : Environment) (before after : Tables) (t : GovernanceTransition)
    (d : GovernanceDeployment) (c : Recorded env before after t d) where
  -- The state that the transition leaves was staged.
  left-staged :
      IsStaged before
      → (eq_state t.from_state no_state || staged t.context_key t.from_state before.transitions)
        ≡ true
  left-staged h = elim (Option-cases (deployment_of t.context_key before.deployments)) [
    | inl e ↦ rw (c.left, e) refl
    | inr (x, e) ↦ rw (c.left, e) (right (eq_state x.state no_state) _ (h t.context_key x e))
  ]
    where
      right : (a b : Bool) → b ≡ true → (a || b) ≡ true
      right a b h = ground arith

  -- The new deployment's stages are in the log.
  recorded-staged :
      IsStaged before → staged t.context_key t.to_state (before.transitions ++ t ∷ []) ≡ true
  recorded-staged h = elim c.follows [
    | inl (l, known, e) ↦
        staged_next t.context_key before.transitions t t.from_state t.to_state l known
          (left-staged h) (eq_refl t.context_key) (eq_state_same t.to_state)
    | inr e ↦
        subst (λ (s : State). staged t.context_key s (before.transitions ++ t ∷ []) ≡ true) (sym e)
          (went_now t.context_key rollback before.transitions t (eq_refl t.context_key) (rw e refl))
  ]

  -- The context of the transition has the new deployment, every other one its own.
  here-put :
      (k : String) → str_eq d.context_key k ≡ true → deployment_of k after.deployments ≡ some d
  here-put k e = c.put k ∙ rw e refl

  there-put :
      (k : String)
      → str_eq d.context_key k ≡ false
      → deployment_of k after.deployments ≡ deployment_of k before.deployments
  there-put k e = c.put k ∙ rw e refl

  pub recorded-IsStaged : IsStaged before → IsStaged after
  recorded-IsStaged h k x found = elim (Bool-cases (str_eq d.context_key k)) [
    | inl e ↦
        let same : d ≡ x = some-injective d x (sym (here-put k e) ∙ found) in
        let key : t.context_key ≡ k = sym c.context ∙ (eq_iff d.context_key k).0 e in
        subst (λ (y : GovernanceDeployment). staged k y.state after.transitions ≡ true) same
          (rw (c.logged, c.state)
            (subst (λ (y : String). staged y t.to_state (before.transitions ++ t ∷ []) ≡ true) key
              (recorded-staged h)))
    | inr e ↦
        rw c.logged
          (staged-append k x.state before.transitions t (h k x (sym (there-put k e) ∙ found)))
  ]

  backs_new : backs env (some t) d ≡ true
  backs_new =
      let key : str_eq t.context_key d.context_key ≡ true =
        (eq_iff t.context_key d.context_key).1 (sym c.context) in
      let state : eq_state t.to_state d.state ≡ true =
        subst (λ (s : State). eq_state t.to_state s ≡ true) (sym c.state)
          (eq_state_same t.to_state) in
      let policy : str_eq t.authority_policy_digest d.authority_policy_digest ≡ true =
        (eq_iff t.authority_policy_digest d.authority_policy_digest).1 (sym c.policy) in
      four _ _ _ _ c.valid key state policy
    where
      four :
          (a b c d : Bool) → a ≡ true → b ≡ true → c ≡ true → d ≡ true → (a && b && c && d) ≡ true
      four a b c d h i j k = ground arith

  pub recorded-IsBacked : IsBacked env before → IsBacked env after
  unfolding is_backed
  recorded-IsBacked h k x found = elim (Bool-cases (str_eq d.context_key k)) [
    | inl e ↦
        subst (λ (y : GovernanceDeployment). is_backed env after.transitions y ≡ true)
          (some-injective d x (sym (here-put k e) ∙ found))
          (ap (λ o. backs env o d)
              (ap (λ ts. transition_by_id d.transition_id ts) c.logged
                ∙ ap (λ i. transition_by_id i (before.transitions ++ t ∷ [])) c.made_by
                ∙ by_id-append_new before.transitions t c.fresh)
            ∙ backs_new)
    | inr e ↦
        rw c.logged
          (is_backed-append env x before.transitions t (h k x (sym (there-put k e) ∙ found)))
  ]

  -- A context in the rollback state stays there.
  pub recorded-rollback : (k : String) → IsRolledBack k before → IsRolledBack k after
  recorded-rollback k h = elim (Bool-cases (str_eq d.context_key k)) [
    | inl e ↦
        let key : t.context_key ≡ k = sym c.context ∙ (eq_iff d.context_key k).0 e in
        let from : t.from_state ≡ rollback =
          c.left ∙ ap (λ y. state_of (deployment_of y before.deployments)) key ∙ h in
        ap state_of (here-put k e)
        ∙ (c.state ∙ elim c.follows [
          | inl (l, known, f) ↦ absurd (
              rollback_final t.to_state (subst (λ (s : State). legal s t.to_state ≡ true) from l)
                known)
          | inr r ↦ r
        ])
    | inr e ↦ rw (there-put k e) h
  ]
