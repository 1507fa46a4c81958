-- ===== src/Websocket/Dropped.antt =====
-- What happens to a client that a broadcast drops (internal/websocket/hub.go and client.go).
use trading_bot.Websocket.Broadcast.{broadcast_msg-Healthy}
use trading_bot.Websocket.HubLaws.{Healthy, Runs, Allows, Allows-then}
use trading_bot.Base.{
  ℕ, ◌≡◌, refl, true, false, some, List, [], ◌∷◌, String, inl, inr, Bool-cases, ◌==◌, ltb, arith,
  length,
}
use mathlib.Core.Path.{subst}
use trading_bot.Websocket.Hub.{
  Hub, Channel, open_channel, closed_channel, Outcome, running, panicked, Message, send, send_all,
  then_run, close_channel, contains, capacity, broadcast_msg, answer, broadcast_room, room_members,
}

abbrev HasChannel : ℕ → Channel → Hub → Type 0
HasChannel c channel h = h.channels c ≡ channel

same_client : (c x : ℕ) → (c == x) ≡ true → c ≡ x
same_client c x h = ground arith

-- A send to another client leaves the channel.
send_other :
    (m : Message) (x c : ℕ) (channel : Channel) (h : Hub)
    → (c == x) ≡ false
    → HasChannel c channel h
    → Allows (HasChannel c channel) (send m x h)
unfolding send close_channel
send_other m x c channel h n e = sent (h.channels x) refl
  where
    sent : (target : Channel) → h.channels x ≡ target → Allows (HasChannel c channel) (send m x h)
    sent closed_channel k = rw (k, send) tt
    sent (open_channel queue) k = elim (Bool-cases (ltb (length queue) capacity)) [
      | inl l ↦ rw (k, l, n, send) e
      | inr l ↦ rw (k, l, send) (rw (k, close_channel) (rw n e))
    ]

send_all-closed :
    (m : Message) (cs : List ℕ) (c : ℕ) (h : Hub)
    → HasChannel c closed_channel h
    → Allows (HasChannel c closed_channel) (send_all m cs h)
unfolding send_all send
send_all-closed m [] c h e = e
send_all-closed m (x ∷ cs) c h e = elim (Bool-cases (c == x)) [
  | inr n ↦
      Allows-then (HasChannel c closed_channel) (HasChannel c closed_channel) (send m x h)
        (send_all m cs) (send_other m x c closed_channel h n e) (λ g q. send_all-closed m cs c g q)
  | inl y ↦ rw (same y, send) tt
]
  where
    same : (c == x) ≡ true → h.channels x ≡ closed_channel
    same y = subst (λ (z : ℕ). h.channels z ≡ closed_channel) (same_client c x y) e

send_all-full :
    (m : Message) (cs : List ℕ) (c : ℕ) (queue : List Message) (h : Hub)
    → contains c cs ≡ true
    → HasChannel c (open_channel queue) h
    → ltb (length queue) capacity ≡ false
    → Allows (HasChannel c closed_channel) (send_all m cs h)
unfolding send_all send close_channel
send_all-full m [] c queue h i e f = ground arith
send_all-full m (x ∷ cs) c queue h i e f = elim (Bool-cases (c == x)) [
  | inr n ↦
      Allows-then (HasChannel c (open_channel queue)) (HasChannel c closed_channel) (send m x h)
        (send_all m cs) (send_other m x c (open_channel queue) h n e)
        (λ g q. send_all-full m cs c queue g (ground arith) q f)
  | inl y ↦
      Allows-then (HasChannel c closed_channel) (HasChannel c closed_channel) (send m x h)
        (send_all m cs) (closing y) (λ g q. send_all-closed m cs c g q)
]
  where
    closing : (c == x) ≡ true → Allows (HasChannel c closed_channel) (send m x h)
    closing y =
        let full : h.channels x ≡ open_channel queue =
          subst (λ (z : ℕ). h.channels z ≡ open_channel queue) (same_client c x y) e in
        rw (full, f, send) (rw (full, close_channel) (rw y refl))

send_all_panics :
    (m : Message) (cs : List ℕ) (c : ℕ) (h : Hub)
    → contains c cs ≡ true
    → HasChannel c closed_channel h
    → send_all m cs h ≡ panicked
unfolding send_all send
send_all_panics m [] c h i e = ground arith
send_all_panics m (x ∷ cs) c h i e = elim (Bool-cases (c == x)) [
  | inl y ↦ rw (subst (λ (z : ℕ). h.channels z ≡ closed_channel) (same_client c x y) e, send) refl
  | inr n ↦
      after (send m x h) (send_other m x c closed_channel h n e)
        (λ g q. send_all_panics m cs c g (ground arith) q)
]
  where
    after :
        (o : Outcome)
        → Allows (HasChannel c closed_channel) o
        → ((g : Hub) → HasChannel c closed_channel g → send_all m cs g ≡ panicked)
        → then_run o (send_all m cs) ≡ panicked
    after (running g) a f = f g a
    after panicked a f = refl

full_sendable :
    (h : Hub) (m n : Message) (c : ℕ) (queue : List Message)
    → Healthy h
    → contains c h.clients ≡ true
    → HasChannel c (open_channel queue) h
    → ltb (length queue) capacity ≡ false
    → Runs (λ g. (HasChannel c closed_channel g) × Healthy g) (broadcast_msg m h)
unfolding broadcast_msg
full_sendable h m n c queue v i e f =
    both (send_all m h.clients h) (send_all-full m h.clients c queue h i e f)
      (broadcast_msg-Healthy m h v)
  where
    both :
        (o : Outcome)
        → Allows (HasChannel c closed_channel) o
        → Runs Healthy o
        → Runs (λ g. (HasChannel c closed_channel g) × Healthy g) o
    both (running g) a r = (a, r)
    both panicked a r = absurd r

-- A client that does not keep up is fatal: if the hub's clients are different and have open
-- channels, and one of them has a full channel, then a broadcast to all clients runs and closes
-- that channel, and afterwards both an answer to a message of that client, as `handleMessage`
-- sends one, and a broadcast to a room that still holds the client panic.
pub dropped-panics :
    (h : Hub) (m n : Message) (c : ℕ) (queue : List Message)
    → Healthy h
    → contains c h.clients ≡ true
    → h.channels c ≡ open_channel queue
    → ltb (length queue) capacity ≡ false
    → Runs
        (λ g.
          (answer n c g ≡ some panicked)
          × ((name : String)
              → contains c (room_members name g.rooms) ≡ true
              → broadcast_room name n g ≡ panicked))
        (broadcast_msg m h)
unfolding answer broadcast_room
dropped-panics h m n c queue v i e f =
    after (broadcast_msg m h) (full_sendable h m n c queue v i e f)
  where
    after :
        (o : Outcome)
        → Runs (λ g. (HasChannel c closed_channel g) × Healthy g) o
        → Runs
            (λ g.
              (answer n c g ≡ some panicked)
              × ((name : String)
                  → contains c (room_members name g.rooms) ≡ true
                  → broadcast_room name n g ≡ panicked))
            o
    after (running g) a =
        (rw (a.0, answer) refl, λ name k. send_all_panics n (room_members name g.rooms) c g k a.0)
    after panicked a = absurd a
