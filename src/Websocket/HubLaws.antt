-- ===== src/Websocket/HubLaws.antt =====
-- What the hub of internal/websocket/hub.go keeps: the channels of its clients are open, so that a
-- broadcast to them does not panic; a room is not kept so.
use trading_bot.Websocket.Hub.{
  delete, Hub, contains, Channel, open_channel, insert, then_run, set_channel,
}
use trading_bot.Base.{
  ℕ, ◌≡◌, refl, Bool, true, false, ◌||◌, List, [], ◌∷◌, ◌++◌, if◌then◌else◌, inl, inr, Bool-cases,
  ◌==◌, arith,
}
use mathlib.Core.Path.{subst}
use trading_bot.Websocket.Hub.{
  Hub, Channel, open_channel, closed_channel, Outcome, running, panicked, Message,
}

abbrev pub is_sendable : Channel → Bool
is_sendable (open_channel queue) = true
is_sendable closed_channel = false

abbrev pub Distinct : List ℕ → Type 0
Distinct [] = Unit
Distinct (x ∷ xs) = (contains x xs ≡ false) × Distinct xs

abbrev pub AreOpen : List ℕ → (ℕ → Channel) → Type 0
AreOpen cs channels = (x : ℕ) → contains x cs ≡ true → is_sendable (channels x) ≡ true

-- The clients are different, and their channels are open.
pub record Healthy (h : Hub) : Type 0 where
  pub distinct : Distinct h.clients
  pub opened : AreOpen h.clients h.channels

pub contains-delete :
    (c x : ℕ) (xs : List ℕ)
    → contains x (delete c xs) ≡ true
    → (contains x xs ≡ true) × ((x == c) ≡ false)
contains-delete c x [] h = ground arith
contains-delete c x (y ∷ ys) h = ground (arith, contains-delete c x ys)

contains-delete_other :
    (c x : ℕ) (xs : List ℕ) → contains x xs ≡ false → contains x (delete c xs) ≡ false
contains-delete_other c x [] h = refl
contains-delete_other c x (y ∷ ys) h = ground (arith, contains-delete_other c x ys)

pub Distinct-delete : (c : ℕ) (xs : List ℕ) → Distinct xs → Distinct (delete c xs)
Distinct-delete c [] d = tt
Distinct-delete c (x ∷ xs) d = elim (Bool-cases (x == c)) [
  | inl h ↦ rw h (Distinct-delete c xs d.1)
  | inr h ↦ rw h (contains-delete_other c x xs d.0, Distinct-delete c xs d.1)
]

contains-append : (c x : ℕ) (xs : List ℕ) → contains x (xs ++ c ∷ []) ≡ (contains x xs || (c == x))
contains-append c x [] = ground arith
contains-append c x (y ∷ ys) = ground (arith, contains-append c x ys)

Distinct-append :
    (c : ℕ) (xs : List ℕ) → contains c xs ≡ false → Distinct xs → Distinct (xs ++ c ∷ [])
Distinct-append c [] h d = (refl, tt)
Distinct-append c (x ∷ xs) h d =
    (ground (arith, contains-append c x xs), Distinct-append c xs (ground arith) d.1)

pub Distinct-insert : (c : ℕ) (xs : List ℕ) → Distinct xs → Distinct (insert c xs)
Distinct-insert c xs d = elim (Bool-cases (contains c xs)) [
  | inl k ↦ rw k d
  | inr k ↦ rw k (Distinct-append c xs k d)
]

pub AreOpen-insert :
    (c : ℕ) (xs : List ℕ) (channels : ℕ → Channel)
    → is_sendable (channels c) ≡ true
    → AreOpen xs channels
    → AreOpen (insert c xs) channels
AreOpen-insert c xs channels o a x h = elim (Bool-cases (contains c xs)) [
  | inl k ↦ a x (subst (λ (b : Bool). contains x (if b then xs else xs ++ c ∷ []) ≡ true) k h)
  | inr k ↦ added (subst (λ (b : Bool). contains x (if b then xs else xs ++ c ∷ []) ≡ true) k h)
]
  where
    added : contains x (xs ++ c ∷ []) ≡ true → is_sendable (channels x) ≡ true
    added h = elim (Bool-cases (contains x xs)) [
      | inl k ↦ a x k
      | inr k ↦
          subst (λ (y : ℕ). is_sendable (channels y) ≡ true)
            (ground (arith, contains-append c x xs)) o
    ]

-- Opening or filling one channel leaves the others.
pub AreOpen-set :
    (c : ℕ) (queue : List Message) (xs : List ℕ) (channels : ℕ → Channel)
    → AreOpen xs channels
    → AreOpen xs (set_channel c (open_channel queue) channels)
AreOpen-set c queue xs channels a x h = elim (Bool-cases (x == c)) [
  | inl k ↦ rw k refl
  | inr k ↦ rw k (a x h)
]

pub AreOpen-close :
    (c : ℕ) (xs : List ℕ) (channels : ℕ → Channel)
    → contains c xs ≡ false
    → AreOpen xs channels
    → AreOpen xs (set_channel c closed_channel channels)
AreOpen-close c xs channels n a x h = elim (Bool-cases (x == c)) [
  | inl k ↦ ground (arith, n, h)
  | inr k ↦ rw k (a x h)
]

-- The outcome is a hub with a property, and no panic.
abbrev pub Runs : (Hub → Type 0) → Outcome → Type 0
Runs P (running h) = P h
Runs P panicked = ⊥

pub Runs-then :
    (P Q : Hub → Type 0) (o : Outcome) (k : Hub → Outcome)
    → Runs P o
    → ((h : Hub) → P h → Runs Q (k h))
    → Runs Q (then_run o k)
Runs-then P Q (running h) k p f = f h p
Runs-then P Q panicked k p f = absurd p

-- The property holds of the hub, unless the runtime panicked.
abbrev pub Allows : (Hub → Type 0) → Outcome → Type 0
Allows P (running h) = P h
Allows P panicked = Unit

pub Allows-then :
    (P Q : Hub → Type 0) (o : Outcome) (k : Hub → Outcome)
    → Allows P o
    → ((h : Hub) → P h → Allows Q (k h))
    → Allows Q (then_run o k)
Allows-then P Q (running h) k p f = f h p
Allows-then P Q panicked k p f = tt
