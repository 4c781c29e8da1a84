-- ===== src/Examples/LobbyRuns.antt =====
-- Runs of the lobby's list of rooms and of the reverse tunnel.
use p2p_core.Base.{List, Option, String, [], none, refl, some, true, ◌++◌, ◌∷◌, ◌≡◌}
use p2p_core.Lobby.{
  Value, text, object, Fields, field, empty, listed, Response, enter_message, fetch_presence,
  leave_message, servers_of,
}
use p2p_core.Tunnel.{
  done, ControlEvent, cancelled, received, message, connection, heartbeat, control_loop,
}
use p2p_core.Tunnel.Copy.{Read, chunk, eof, Write, wrote, accept_reverse_connection}
use p2p_core.Lobby.Rooms.{
  AreDistinct, fetch_presence-first, fetch_presence-leave_message, first_of, room_of,
}
use p2p_core.Tunnel.Delivery.{accept_reverse_connection-delivers, read_bytes}
use p2p_core.Tunnel.Control.{connections_of, control_loop-accepts}

abbrev no_json : String → Option Value
no_json s = none

abbrev sky : Fields
sky = field "room_name" (text "Sky") empty

abbrev said : List Value
said = enter_message "h1" (object sky) ∷ enter_message "h2" (object sky) ∷ []

fetch_presence-first_example :
    AreDistinct (fetch_presence no_json Response.unreachable (listed said))
    × (room_of "h2" (fetch_presence no_json Response.unreachable (listed said))
        ≡ first_of "h2" (servers_of no_json said))
fetch_presence-first_example = fetch_presence-first no_json Response.unreachable (listed said) "h2"

fetch_presence-leave_message_example :
    fetch_presence no_json Response.refused (listed (said ++ (leave_message "h1" ∷ [])))
    ≡ fetch_presence no_json Response.refused (listed (said ++ []))
fetch_presence-leave_message_example =
    fetch_presence-leave_message no_json Response.refused said [] "h1"

abbrev first_events : List ControlEvent
first_events =
    received (message heartbeat)
    ∷ received (message (connection "c1"))
    ∷ received (message (connection "c2"))
    ∷ []

control_loop-accepts_example :
    ((control_loop (first_events ++ (cancelled ∷ []))).accepted ≡ connections_of first_events)
    × ((control_loop (first_events ++ (cancelled ∷ []))).ended ≡ some (done tt))
control_loop-accepts_example =
    control_loop-accepts first_events [] cancelled (done tt) (refl, (refl, (refl, tt))) refl

abbrev reads : List (Read × Write)
reads = (chunk (3 ∷ 4 ∷ []), wrote) ∷ (chunk (5 ∷ []), wrote) ∷ (eof, wrote) ∷ []

accept_reverse_connection-delivers_example :
    accept_reverse_connection (done tt) (done tt) (done tt) (1 ∷ 2 ∷ []) wrote reads
    ≡ record { written = (1 ∷ 2 ∷ []) ++ read_bytes reads; shut = true; result = some (done tt) }
accept_reverse_connection-delivers_example =
    accept_reverse_connection-delivers (1 ∷ 2 ∷ []) reads (refl, (refl, tt))

three_bytes : read_bytes reads ≡ 3 ∷ 4 ∷ 5 ∷ []
unfolding read_bytes
three_bytes = refl
