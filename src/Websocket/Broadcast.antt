-- ===== src/Websocket/Broadcast.antt =====
-- Broadcasts of internal/websocket/hub.go to the hub's clients and to a room.
use trading_bot.Websocket.HubLaws.{
  Distinct, Runs, Allows, Allows-then, Healthy, AreOpen, Runs-then, AreOpen-set, is_sendable,
  contains-delete, AreOpen-close, Distinct-insert, Distinct-delete, AreOpen-insert,
}
use trading_bot.Base.{
  ℕ, ◌≡◌, refl, true, false, Option, some, List, [], ◌∷◌, ◌++◌, String, inl, inr, Bool-cases, ltb,
  arith, length,
}
use mathlib.Core.Path.{subst}
use trading_bot.Websocket.Hub.{
  Hub, Channel, open_channel, closed_channel, Outcome, running, panicked, Message, send_all, send,
  contains, capacity, answer, delete, broadcast_msg, broadcast_room, room_members, close_channel,
  register, unregister, set_channel, join_room, leave_room,
}

-- The clients and others that are to be sent to have open channels.
pub record Ready (cs : List ℕ) (h : Hub) : Type 0 where
  pub healthy : Healthy h
  pub targets : AreOpen cs h.channels

is_sendable-cases :
    (channel : Channel)
    → is_sendable channel ≡ true
    → (queue : List Message) × (channel ≡ open_channel queue)
is_sendable-cases (open_channel queue) h = (queue, refl)
is_sendable-cases closed_channel h = ground arith

contains_self : (c : ℕ) (cs : List ℕ) → contains c (c ∷ cs) ≡ true
contains_self c cs = ground arith

contains_cons : (x c : ℕ) (cs : List ℕ) → contains x cs ≡ true → contains x (c ∷ cs) ≡ true
contains_cons x c cs h = ground arith

contains-delete_self : (c : ℕ) (xs : List ℕ) → contains c (delete c xs) ≡ false
contains-delete_self c xs = elim (Bool-cases (contains c (delete c xs))) [
  | inr h ↦ h
  | inl h ↦ ground (arith, contains-delete c c xs)
]

-- Dropping a client and closing its channel.
drop-Healthy :
    (c : ℕ) (h : Hub)
    → Healthy h
    → Healthy (record h {
      clients = delete c h.clients;
      channels = set_channel c closed_channel h.channels;
    })
drop-Healthy c h v = record {
  distinct = Distinct-delete c h.clients v.distinct;
  opened =
      AreOpen-close c (delete c h.clients) h.channels (contains-delete_self c h.clients)
        (λ x k. v.opened x (contains-delete c x h.clients k).0);
}

send-Ready :
    (m : Message) (c : ℕ) (cs : List ℕ) (h : Hub)
    → contains c cs ≡ false
    → Ready (c ∷ cs) h
    → Runs (Ready cs) (send m c h)
unfolding send
send-Ready m c cs h n r =
    let (queue, e) = is_sendable-cases (h.channels c) (r.targets c (contains_self c cs)) in
    elim (Bool-cases (ltb (length queue) capacity)) [
      | inl k ↦
          rw (e, k, send)
            (record {
              healthy = record {
                distinct = r.healthy.distinct;
                opened = AreOpen-set c (queue ++ m ∷ []) h.clients h.channels r.healthy.opened;
              };
              targets =
                  AreOpen-set c (queue ++ m ∷ []) cs h.channels
                    (λ x k. r.targets x (contains_cons x c cs k));
            })
      | inr k ↦
          rw (e, k, send)
            (rw (e, close_channel)
              (record {
                healthy = drop-Healthy c h r.healthy;
                targets =
                    AreOpen-close c cs h.channels n (λ x k. r.targets x (contains_cons x c cs k));
              }))
    ]

send_all-Ready :
    (m : Message) (cs : List ℕ) (h : Hub)
    → Distinct cs
    → Ready cs h
    → Runs Healthy (send_all m cs h)
unfolding send_all
send_all-Ready m [] h d r = r.healthy
send_all-Ready m (c ∷ cs) h d r =
    Runs-then (Ready cs) Healthy (send m c h) (send_all m cs) (send-Ready m c cs h d.0 r)
      λ g q. send_all-Ready m cs g d.1 q

-- A send that does not panic leaves a healthy hub, whichever client it is to.
send-Healthy : (m : Message) (c : ℕ) (h : Hub) → Healthy h → Allows Healthy (send m c h)
unfolding send close_channel
send-Healthy m c h v = sent (h.channels c) refl
  where
    sent : (channel : Channel) → h.channels c ≡ channel → Allows Healthy (send m c h)
    sent closed_channel e = rw (e, send) tt
    sent (open_channel queue) e = elim (Bool-cases (ltb (length queue) capacity)) [
      | inl k ↦
          rw (e, k, send)
            (record {
              distinct = v.distinct;
              opened = AreOpen-set c (queue ++ m ∷ []) h.clients h.channels v.opened;
            })
      | inr k ↦ rw (e, k, send) (rw (e, close_channel) (drop-Healthy c h v))
    ]

send_all-Healthy :
    (m : Message) (cs : List ℕ) (h : Hub) → Healthy h → Allows Healthy (send_all m cs h)
unfolding send_all
send_all-Healthy m [] h v = v
send_all-Healthy m (c ∷ cs) h v =
    Allows-then Healthy Healthy (send m c h) (send_all m cs) (send-Healthy m c h v)
      (send_all-Healthy m cs)

-- A broadcast to a room, which may hold dropped clients, leaves a healthy hub where it does not
-- panic.
broadcast_room-Healthy :
    (name : String) (m : Message) (h : Hub) → Healthy h → Allows Healthy (broadcast_room name m h)
unfolding broadcast_room
broadcast_room-Healthy name m h v = send_all-Healthy m (room_members name h.rooms) h v

-- A broadcast to the clients of a healthy hub does not panic, and leaves a healthy hub: the
-- clients are different and their channels are open. The clients whose channels are full are
-- dropped and closed on the way.
pub broadcast_msg-Healthy : (m : Message) (h : Hub) → Healthy h → Runs Healthy (broadcast_msg m h)
unfolding broadcast_msg
broadcast_msg-Healthy m h v =
    send_all-Ready m h.clients h v.distinct (record { healthy = v; targets = v.opened })

pub unregister-Healthy : (c : ℕ) (h : Hub) → Healthy h → Runs Healthy (unregister c h)
unfolding unregister close_channel
unregister-Healthy c h v = elim (Bool-cases (contains c h.clients)) [
  | inr k ↦ rw k v
  | inl k ↦
      let (queue, e) = is_sendable-cases (h.channels c) (v.opened c k) in
      rw (k, e, close_channel)
        (record { distinct = (drop-Healthy c h v).distinct; opened = (drop-Healthy c h v).opened })
]

-- The states that a hub is in between its operations, which run one after another: clients come
-- with open channels, any client may join or leave a room, read from its channel or be answered,
-- and broadcasts go to all clients or to a room.
pub data Reachable : Hub → Type 0 where
  initial :
      (channels : ℕ → Channel)
      → Reachable (record { clients = []; rooms = []; channels = channels })
  registered :
      (h : Hub) (c : ℕ) → Reachable h → is_sendable (h.channels c) ≡ true → Reachable (register c h)
  unregistered : (h g : Hub) (c : ℕ) → Reachable h → unregister c h ≡ running g → Reachable g
  joined : (h : Hub) (c : ℕ) (name : String) → Reachable h → Reachable (join_room c name h)
  left_room : (h : Hub) (c : ℕ) (name : String) → Reachable h → Reachable (leave_room c name h)
  broadcast : (h g : Hub) (m : Message) → Reachable h → broadcast_msg m h ≡ running g → Reachable g
  broadcast_to_room :
      (h g : Hub) (name : String) (m : Message)
      → Reachable h
      → broadcast_room name m h ≡ running g
      → Reachable g
  answered :
      (h g : Hub) (c : ℕ) (m : Message)
      → Reachable h
      → answer m c h ≡ some (running g)
      → Reachable g
  written :
      (h : Hub) (c : ℕ) (m : Message) (queue : List Message)
      → Reachable h
      → h.channels c ≡ open_channel (m ∷ queue)
      → Reachable (record h { channels = set_channel c (open_channel queue) h.channels })

Runs-running : (P : Hub → Type 0) (o : Outcome) (g : Hub) → Runs P o → o ≡ running g → P g
Runs-running P o g r e = subst (Runs P) e r

Allows-running : (P : Hub → Type 0) (o : Outcome) (g : Hub) → Allows P o → o ≡ running g → P g
Allows-running P o g r e = subst (Allows P) e r

-- An answer that was sent.
abbrev AnswersWell : Option Outcome → Type 0
AnswersWell (some (running g)) = Healthy g
AnswersWell _ = Unit

answer-AnswersWell : (m : Message) (c : ℕ) (h : Hub) → Healthy h → AnswersWell (answer m c h)
unfolding answer
answer-AnswersWell m c h v = answered (h.channels c) refl
  where
    answered : (channel : Channel) → h.channels c ≡ channel → AnswersWell (answer m c h)
    answered closed_channel e = rw (e, answer) tt
    answered (open_channel queue) e = elim (Bool-cases (ltb (length queue) capacity)) [
      | inr k ↦ rw (e, k, answer) tt
      | inl k ↦
          rw (e, k, answer)
            (record {
              distinct = v.distinct;
              opened = AreOpen-set c (queue ++ m ∷ []) h.clients h.channels v.opened;
            })
    ]

answer-Healthy :
    (m : Message) (c : ℕ) (h g : Hub) → Healthy h → answer m c h ≡ some (running g) → Healthy g
answer-Healthy m c h g v e = subst AnswersWell e (answer-AnswersWell m c h v)

register-Healthy :
    (c : ℕ) (h : Hub) → Healthy h → is_sendable (h.channels c) ≡ true → Healthy (register c h)
unfolding register
register-Healthy c h v o = record {
  distinct = Distinct-insert c h.clients v.distinct;
  opened = AreOpen-insert c h.clients h.channels o v.opened;
}

join_room-Healthy : (c : ℕ) (name : String) (h : Hub) → Healthy h → Healthy (join_room c name h)
unfolding join_room
join_room-Healthy c name h v = record { distinct = v.distinct; opened = v.opened }

leave_room-Healthy : (c : ℕ) (name : String) (h : Hub) → Healthy h → Healthy (leave_room c name h)
unfolding leave_room
leave_room-Healthy c name h v = record { distinct = v.distinct; opened = v.opened }

-- In every state that the hub can reach, where its operations run one after another and clients
-- register with open channels, the clients are different and their channels are open.
pub Reachable-Healthy : (h : Hub) → Reachable h → Healthy h
Reachable-Healthy _ (initial channels) = record { distinct = tt; opened = λ x k. ground (arith, k) }
Reachable-Healthy _ (registered h c r o) = register-Healthy c h (Reachable-Healthy h r) o
Reachable-Healthy _ (unregistered h g c r e) =
    Runs-running Healthy (unregister c h) g (unregister-Healthy c h (Reachable-Healthy h r)) e
Reachable-Healthy _ (joined h c name r) = join_room-Healthy c name h (Reachable-Healthy h r)
Reachable-Healthy _ (left_room h c name r) = leave_room-Healthy c name h (Reachable-Healthy h r)
Reachable-Healthy _ (broadcast h g m r e) =
    Runs-running Healthy (broadcast_msg m h) g (broadcast_msg-Healthy m h (Reachable-Healthy h r)) e
Reachable-Healthy _ (broadcast_to_room h g name m r e) =
    Allows-running Healthy (broadcast_room name m h) g
      (broadcast_room-Healthy name m h (Reachable-Healthy h r)) e
Reachable-Healthy _ (answered h g c m r e) = answer-Healthy m c h g (Reachable-Healthy h r) e
Reachable-Healthy _ (written h c m queue r e) =
    let v = Reachable-Healthy h r in
    record { distinct = v.distinct; opened = AreOpen-set c queue h.clients h.channels v.opened }

-- Where the operations of the hub run one after another, with broadcasts to all clients and to
-- rooms among them, no broadcast to all clients panics in a state that the hub can reach, and the
-- state it leaves is one too. Clients are registered with open channels.
pub broadcast_msg-Reachable :
    (m : Message) (h : Hub) → Reachable h → Runs Reachable (broadcast_msg m h)
broadcast_msg-Reachable m h r =
    went (broadcast_msg m h) refl (broadcast_msg-Healthy m h (Reachable-Healthy h r))
  where
    went : (o : Outcome) → broadcast_msg m h ≡ o → Runs Healthy o → Runs Reachable o
    went (running g) e v = broadcast h g m r e
    went panicked e v = absurd v
