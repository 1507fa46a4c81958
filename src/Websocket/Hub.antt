-- ===== src/Websocket/Hub.antt =====
-- The hub of internal/websocket/hub.go, and the answers of internal/websocket/client.go. A client is
-- the number of its object; its `Send` channel holds the messages that were not written yet, or is
-- closed. A map used as a set is a list; the runtime panics on a send on a closed channel and on a
-- second close.
use trading_bot.Base.{
  ℕ, Bool, false, ◌||◌, Option, none, some, List, [], ◌∷◌, ◌++◌, String, if◌then◌else◌, str_eq,
  ◌==◌, ltb, length, is_nil,
}

pub record Message : Type 0 where
  pub kind : String
  pub payload : String

pub data Channel : Type 0 where
  open_channel : List Message → Channel
  closed_channel : Channel

pub record Hub : Type 0 where
  pub clients : List ℕ
  pub rooms : List (String × List ℕ)
  pub channels : ℕ → Channel

pub data Outcome : Type 0 where
  running : Hub → Outcome
  panicked : Outcome

-- `make(chan *Message, 256)`
abbrev pub capacity : ℕ
capacity = 256

abbrev pub contains : ℕ → List ℕ → Bool
contains c [] = false
contains c (x ∷ xs) = (x == c) || contains c xs

-- `set[client] = true`
abbrev pub insert : ℕ → List ℕ → List ℕ
insert c xs = if contains c xs then xs else xs ++ c ∷ []

-- `delete(set, client)`
abbrev pub delete : ℕ → List ℕ → List ℕ
delete c [] = []
delete c (x ∷ xs) = let rest = delete c xs in if x == c then rest else x ∷ rest

abbrev pub set_channel : ℕ → Channel → (ℕ → Channel) → ℕ → Channel
set_channel c channel channels x = if x == c then channel else channels x

abbrev pub then_run : Outcome → (Hub → Outcome) → Outcome
then_run panicked k = panicked
then_run (running h) k = k h

-- `close(client.Send)`
unfoldable pub close_channel : ℕ → Hub → Outcome
close_channel c h = elim (h.channels c) [
  | open_channel queue ↦ running (record h { channels = set_channel c closed_channel h.channels })
  | closed_channel ↦ panicked
]

-- `delete(h.Clients, client)`
abbrev pub drop_client : ℕ → Hub → Hub
drop_client c h = record h { clients = delete c h.clients }

-- The select of a broadcast: a full channel is closed and its client dropped.
unfoldable pub send : Message → ℕ → Hub → Outcome
unfolding close_channel
send m c h = elim (h.channels c) [
  | open_channel queue ↦
      if ltb (length queue) capacity
      then running
          (record h { channels = set_channel c (open_channel (queue ++ m ∷ [])) h.channels })
      else then_run (close_channel c h) (λ g. running (drop_client c g))
  | closed_channel ↦ panicked
]

unfoldable pub send_all : Message → List ℕ → Hub → Outcome
send_all m [] h = running h
send_all m (c ∷ cs) h = then_run (send m c h) (send_all m cs)

-- `BroadcastMsg`, and the hub's own loop on `Broadcast`.
unfoldable pub broadcast_msg : Message → Hub → Outcome
broadcast_msg m h = send_all m h.clients h

abbrev pub room_members : String → List (String × List ℕ) → List ℕ
room_members name [] = []
room_members name (r ∷ rs) = if str_eq r.0 name then r.1 else room_members name rs

unfoldable pub broadcast_room : String → Message → Hub → Outcome
broadcast_room name m h = send_all m (room_members name h.rooms) h

unfoldable pub register : ℕ → Hub → Hub
register c h = record h { clients = insert c h.clients }

-- The rooms without a client; an empty one is deleted.
unfoldable pub leave_rooms : ℕ → List (String × List ℕ) → List (String × List ℕ)
leave_rooms c [] = []
leave_rooms c (r ∷ rs) =
    let rest = leave_rooms c rs in
    if contains c r.1
    then (if is_nil (delete c r.1) then rest else (r.0, delete c r.1) ∷ rest)
    else r ∷ rest

unfoldable pub unregister : ℕ → Hub → Outcome
unregister c h =
    if contains c h.clients
    then then_run (close_channel c (drop_client c h))
        (λ g. running (record g { rooms = leave_rooms c g.rooms }))
    else running h

-- The rooms with the client in one, which is made where it is missing.
unfoldable pub add_member : ℕ → String → List (String × List ℕ) → List (String × List ℕ)
add_member c name [] = (name, c ∷ []) ∷ []
add_member c name (r ∷ rs) =
    let rest = add_member c name rs in
    if str_eq r.0 name then (r.0, insert c r.1) ∷ rs else r ∷ rest

unfoldable pub remove_member : ℕ → String → List (String × List ℕ) → List (String × List ℕ)
remove_member c name [] = []
remove_member c name (r ∷ rs) =
    let rest = remove_member c name rs in
    if str_eq r.0 name
    then (if is_nil (delete c r.1) then rs else (r.0, delete c r.1) ∷ rs)
    else r ∷ rest

unfoldable pub join_room : ℕ → String → Hub → Hub
join_room c name h = record h { rooms = add_member c name h.rooms }

unfoldable pub leave_room : ℕ → String → Hub → Hub
leave_room c name h = record h { rooms = remove_member c name h.rooms }

unfoldable pub room_client_count : String → Hub → ℕ
room_client_count name h = length (room_members name h.rooms)

-- `c.Send <- message` outside a select: it waits for room, which `none` says.
unfoldable pub answer : Message → ℕ → Hub → Option Outcome
answer m c h = elim (h.channels c) [
  | open_channel queue ↦
      if ltb (length queue) capacity
      then some (
          running
            (record h { channels = set_channel c (open_channel (queue ++ m ∷ [])) h.channels }))
      else none
  | closed_channel ↦ some panicked
]
