-- ===== src/Examples/TaskRuns.antt =====
-- Runs of the tasks of a host: the e4mc domain and the published room.
use p2p_core.Base.{
  ℕ, All, List, Option, String, [], arith, false, none, refl, replicate, some, suc, zero, ◌++◌, ◌∷◌,
  ◌≡◌, length, ◌≤◌,
}
use p2p_core.Models.{default_status, NetworkStatus}
use p2p_core.Text.{show_nat}
use p2p_core.Lobby.{
  Value, Fields, Response, listed, text, number, object, get_field, fetch_presence,
}
use p2p_core.Lobby.Rooms.{room_of, first_of}
use p2p_core.Manager.E4mc.{E4mcTurn, Progress, Verification, e4mc_loop}
use p2p_core.Manager.E4mc.Disabled.{IsRunning, IsTurnLog, e4mc_loop-floods}
use p2p_core.Manager.Presence.{HostRoom, RoomProbe, Tick, host_lobby_loop}
use p2p_core.Manager.Presence.Published.{host_lobby_loop-listed}
use p2p_core.Base.Words.{Bytes}
use p2p_core.Text.{is_whitespace}
use p2p_core.Text.Chars.{Chars}
use p2p_core.Text.Chars.Trim.{IsUnspaced}
use p2p_core.Text.Numbers.{decimal}
use p2p_core.Text.Utf8.{codes}
use p2p_core.Manager.{push_log, recount}
use p2p_core.TestServer.{log_status, response, handle_client, probe_request, probe_answer}
use p2p_core.TestServer.Echo.{echoed, probe-echoed}
use p2p_core.TestServer.Lost.{push_log-log_status}
use p2p_core.Manager.Sessions.{done}

abbrev probe : RoomProbe
probe = record { room_name = "Sky"; version = some "1.20.1"; online_players = 2; max_players = 8 }

abbrev first_try : ℕ → Verification
first_try n = record { cancelled = false; probe = done probe }

abbrev failing_turn : E4mcTurn
failing_turn = record {
  cancelled = false;
  attempts = first_try;
  cancelled_at_failure = false;
  cancelled_at_end = false;
}

abbrev begun : Progress
begun = record { status = default_status; told = [] }

All-IsRunning : (n : ℕ) → All IsRunning (replicate n failing_turn)
All-IsRunning zero = tt
All-IsRunning (suc n) = ((refl, refl, refl), All-IsRunning n)

e4mc_loop-floods_example :
    let ts = replicate 32 failing_turn in
    (entries : List String) × (All (IsTurnLog 25565) entries)
    × (e4mc_loop 25565 ts begun
        ≡ record begun { status = recount (record default_status { logs = entries }) })
e4mc_loop-floods_example =
    e4mc_loop-floods 25565 (replicate 32 failing_turn) begun (All-IsRunning 32) (omega arith)
      (omega arith)

abbrev sky_room : HostRoom
sky_room = record {
  peer_id = "h1";
  room_name = "Sky";
  fallback_version = none;
  has_password = false;
  public_udp_addr = some "1.2.3.4:5";
  local_udp_addr = none;
}

abbrev sky_tick : Tick
sky_tick = record { probe = some probe; nickname = none }

abbrev idle_tick : Tick
idle_tick = record { probe = none; nickname = none }

abbrev one_part : String → List String
one_part s = s ∷ []

abbrev no_text : String → Option Value
no_text s = none

nothing_before : first_of "h1" [] ≡ none
unfolding first_of
nothing_before = refl

-- The message of the second tick, where the service returns the newest message first.
host_lobby_loop-listed_example :
    (front : List Value) × (message : Value) × (back : List Value) × ((host_lobby_loop one_part
        sky_room
        (idle_tick ∷ sky_tick ∷ [])
        default_status).0
      ≡ front ++ (message ∷ back))
    × (length front ≡ 1)
    × (fs : Fields) × (room_of "h1" (
          fetch_presence no_text Response.unreachable (
            listed (
              []
              ++ (message
                  ∷ (host_lobby_loop one_part sky_room (idle_tick ∷ []) default_status).0))))
        ≡ some (object fs))
    × (get_field "slots" fs ≡ some (number (show_nat 2)))
    × (get_field "maxPlayers" fs ≡ some (number (show_nat 8)))
    × (get_field "game_version" fs ≡ some (text "1.20.1"))
host_lobby_loop-listed_example =
    host_lobby_loop-listed one_part no_text Response.unreachable []
      (host_lobby_loop one_part sky_room (idle_tick ∷ []) default_status).0 sky_room
      (idle_tick ∷ []) [] sky_tick default_status nothing_before

abbrev hello : Chars
hello = codes "hello"

no_more : length (response 5 hello) ≤ 2048
unfolding response decimal
no_more = omega arith

hello-IsUnspaced : IsUnspaced hello
unfolding is_whitespace
hello-IsUnspaced = (refl, (refl, (refl, (refl, (refl, tt)))))

probe-echoed_example :
    (answer : Bytes) × (rest : List Bytes) × ((handle_client "127.0.0.1:9"
        (record { read = done (probe_request hello); timestamp = 5; written = done tt } ∷ [])
        default_status).answers
      ≡ answer ∷ rest)
    × (probe_answer answer ≡ echoed 5 hello)
probe-echoed_example =
    probe-echoed "127.0.0.1:9" hello 5 [] default_status (ground arith) hello-IsUnspaced no_more

abbrev full_status : NetworkStatus
full_status = record default_status { logs = replicate 64 "entry" }

push_log-log_status_example :
    (push_log "next" (log_status "test server" full_status)).logs
    ≡ (push_log "next" full_status).logs
push_log-log_status_example =
    push_log-log_status "next" "test server" full_status (omega arith) (omega arith)
