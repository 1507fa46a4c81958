-- ===== src/Websocket/Examples.antt =====
-- The hub at one client (internal/websocket/hub.go).
use trading_bot.Websocket.Dropped.{dropped-panics}
use trading_bot.Websocket.Broadcast.{
  Reachable, broadcast_msg-Healthy, broadcast_msg-Reachable, initial, registered,
}
use trading_bot.Websocket.HubLaws.{Healthy, Runs}
use trading_bot.Base.{◌≡◌, refl, true, some, [], ◌∷◌, String}
use trading_bot.Base.{replicate}
use trading_bot.Websocket.Hub.{
  Hub, open_channel, panicked, Message, answer, broadcast_msg, contains, room_members,
  broadcast_room, register,
}

abbrev hello : Message
hello = record { kind = "update"; payload = "1" }

-- Client 7 is registered, in a room, and has not read its 256 messages.
abbrev stuck : Hub
stuck = record {
  clients = 7 ∷ [];
  rooms = ("ticker:BTCUSDT", 7 ∷ []) ∷ [];
  channels = λ c. open_channel (replicate 256 hello);
}

stuck-Healthy : Healthy stuck
stuck-Healthy = record { distinct = (refl, tt); opened = λ x h. refl }

abbrev empty_hub : Hub
empty_hub = record { clients = []; rooms = []; channels = λ c. open_channel [] }

broadcast_msg-Reachable_example : Runs Reachable (broadcast_msg hello (register 7 empty_hub))
broadcast_msg-Reachable_example =
    broadcast_msg-Reachable hello (register 7 empty_hub)
      (registered empty_hub 7 (initial (λ c. open_channel [])) refl)

broadcast_msg-Healthy_example : Runs Healthy (broadcast_msg hello stuck)
broadcast_msg-Healthy_example = broadcast_msg-Healthy hello stuck stuck-Healthy

dropped-panics_example :
    Runs
      (λ g.
        (answer hello 7 g ≡ some panicked)
        × ((name : String)
            → contains 7 (room_members name g.rooms) ≡ true
            → broadcast_room name hello g ≡ panicked))
      (broadcast_msg hello stuck)
dropped-panics_example =
    dropped-panics stuck hello hello 7 (replicate 256 hello) stuck-Healthy refl refl refl
