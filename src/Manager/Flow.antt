-- ===== src/Manager/Flow.antt =====
-- src/manager.rs: the task of a client session, `spawn_client_connect_task`, with
-- `run_client_connect_flow` and `run_relay_client_tunnel`. What the sockets and the relay come to, and
-- what happens on an open connection, is an argument. The LAN broadcaster changes nothing here.
pub mod Settled
use p2p_core.Base.{
  ok, err, panic, out_of_fuel, ℕ, Bool, List, Option, Outcome, String, [], false, if◌then◌else◌,
  none, some, true, ◌++◌, ◌∷◌,
}
use p2p_core.Net.{SocketAddr, show_addr}
use p2p_core.Text.{◌⧺◌, show_nat}
use p2p_core.Models.{NetworkStatus, SessionMode, ConnectionState}
use p2p_core.Manager.{mutate_status, push_log, mark_fatal}
use p2p_core.Manager.Connect.{Attempt, connect_with_retries, connecting}
use p2p_core.Manager.Links.{LinkEvent, run_link}
use p2p_core.Manager.Sessions.{done, failed, Result}

-- The arguments of the task that its changes of the status name.
pub record ClientFlow : Type 0 where
  pub peer_addr : SocketAddr
  pub peer_id : String
  pub relay_session_id : Option String
  pub use_udp : Bool

-- Whether the token is cancelled in the time of grace, at each attempt, and when the flow fails;
-- the attempts; the local listener's port; the round-trip time; what happens on the direct connection;
-- the port of the relay's runtime, and how that ends.
pub record FlowNet : Type 0 where
  pub cancelled_in_grace : Bool
  pub cancelled : ℕ → Bool
  pub cancelled_at_end : Bool
  pub attempt : ℕ → Attempt
  pub listener : Result ℕ
  pub rtt : ℕ
  pub link : List LinkEvent
  pub relay : Result ℕ
  pub relay_end : Result (Unit {0})

-- What the application is told.
pub data AppEvent : Type 0 where
  tunnel_established : String → String → String → AppEvent
  tunnel_failed : String → String → AppEvent

pub record Run : Type 0 where
  pub result : Result (Unit {0})
  pub status : NetworkStatus
  pub told : List AppEvent

abbrev pub minecraft_local_addr : ℕ → String
minecraft_local_addr port = "127.0.0.1:" ⧺ show_nat port

-- Both ways to a connection: the status with its only peer, and the event.
unfoldable pub linked_status :
    String → String → ClientFlow → Option ℕ → NetworkStatus → NetworkStatus
linked_status transport note f ping = mutate_status (λ s. record s {
  state = ConnectionState.connected;
  transport_path = some transport;
  note = some note;
  peers =
      record {
        peer_id = f.peer_id;
        addr = show_addr f.peer_addr;
        connected = true;
        ping_ms = ping;
        transport = some transport;
      }
      ∷ [];
})

abbrev pub linked_event : String → ClientFlow → ℕ → AppEvent
linked_event transport f port =
    tunnel_established (show_addr f.peer_addr) (minecraft_local_addr port) transport

abbrev pub transport_label : Bool → String
transport_label use_udp = if use_udp then "UDP/Bedrock" else "TCP/Java"

abbrev pub relaying : Bool → NetworkStatus → NetworkStatus
relaying use_udp = mutate_status (λ s. record s {
  state = ConnectionState.connecting;
  transport_path = some "wss-relay";
  note = some ("Используется резервный WSS туннель (" ⧺ transport_label use_udp ⧺ ").");
})

abbrev pub relay_opened : ClientFlow → FlowNet → String → Result ℕ → NetworkStatus → Run
relay_opened f net session_id (failed e) s = record {
  result = failed ("failed to start WSS relay client session " ⧺ session_id ⧺ ": " ⧺ e);
  status = s;
  told = [];
}
relay_opened f net session_id (done port) s = record {
  result = net.relay_end;
  status =
      push_log
        ("Relay fallback ready for " ⧺ show_addr f.peer_addr ⧺ " via session " ⧺ session_id ⧺ ".")
        (linked_status "wss-relay"
          ("Соединение установлено. Подключайтесь к localhost:" ⧺ show_nat port ⧺ ".") f none s);
  told = linked_event "wss-relay" f port ∷ [];
}

unfoldable pub run_relay_client_tunnel : ClientFlow → FlowNet → String → NetworkStatus → Run
unfolding linked_status
run_relay_client_tunnel f net session_id s =
    relay_opened f net session_id net.relay (relaying f.use_udp s)

abbrev pub both_failed : String → Result (Unit {0}) → Result (Unit {0})
both_failed direct (done ended) = done ended
both_failed direct (failed e) =
    failed ("direct tunnel failed: " ⧺ direct ⧺ "\nrelay fallback failed: " ⧺ e)

-- Without a direct connection: the relay, if the host named a session of it.
abbrev pub fall_back : ClientFlow → FlowNet → String → Option String → NetworkStatus → Run
fall_back f net direct none s = record { result = failed direct; status = s; told = [] }
fall_back f net direct (some session_id) s =
    let r =
      run_relay_client_tunnel f net session_id
        (push_log ("Switching to relay fallback for session " ⧺ session_id ⧺ ".") s) in
    record { result = both_failed direct r.result; status = r.status; told = r.told }

abbrev pub direct_status : ClientFlow → FlowNet → ℕ → NetworkStatus → NetworkStatus
direct_status f net port s =
    push_log ("Локальный proxy на " ⧺ minecraft_local_addr port ⧺ " поднят.") (
      linked_status "direct-quic"
        ("Connection established. Connect in Minecraft to localhost:" ⧺ show_nat port ⧺ ".") f
        (some net.rtt) s)

-- Once the proxy, the pings and the end of the connection are awaited, or the token is cancelled, the
-- flow has not failed.
abbrev pub direct_opened : ClientFlow → FlowNet → Result ℕ → NetworkStatus → Run
direct_opened f net (failed e) s = record {
  result = failed ("не удалось найти свободный порт для локального прокси: " ⧺ e);
  status = s;
  told = [];
}
direct_opened f net (done port) s = record {
  result = done tt;
  status =
      (run_link f.peer_id net.link
        (record { accepting = true; taken = 0; status = direct_status f net port s })).status;
  told = linked_event "direct-quic" f port ∷ [];
}

-- `connect_with_retries` has come to its end; it neither panics nor runs out of fuel.
unfoldable pub after_attempts : ClientFlow → FlowNet → Outcome String ℕ → NetworkStatus → Run
unfolding run_relay_client_tunnel linked_status run_link
after_attempts f net (ok c) s = direct_opened f net net.listener s
after_attempts f net (err e) s =
    fall_back f net e f.relay_session_id
      (push_log ("Direct QUIC path failed for " ⧺ show_addr f.peer_addr ⧺ ": " ⧺ e) s)
after_attempts f net panic s = record { result = failed ""; status = s; told = [] }
after_attempts f net out_of_fuel s = record { result = failed ""; status = s; told = [] }

abbrev pub flow_starting : NetworkStatus → NetworkStatus
flow_starting = mutate_status (λ s. record s {
  mode = SessionMode.client;
  state = ConnectionState.starting;
  signaling_server = "mcp2p-lobby";
  note = some "Хост подтвердил handshake. Поднимаю direct QUIC и fallback.";
})

unfoldable pub run_client_connect_flow : ClientFlow → FlowNet → NetworkStatus → Run
unfolding after_attempts
run_client_connect_flow f net s =
    let tried = connect_with_retries net.cancelled net.attempt (flow_starting s) in
    if net.cancelled_in_grace
    then record { result = failed "подключение отменено"; status = flow_starting s; told = [] }
    else after_attempts f net tried.0 tried.1

abbrev pub report :
    ClientFlow
    → Bool
    → Result (Unit {0})
    → NetworkStatus
    → List AppEvent
    → NetworkStatus × List AppEvent
report f cancelled (done ended) s told = (s, told)
report f true (failed e) s told = (s, told)
report f false (failed e) s told = (
  mark_fatal SessionMode.client none e s,
  told
      ++ (tunnel_failed (show_addr f.peer_addr) "Не удалось пробить NAT и установить туннель."
          ∷ []),
)

-- The task: its last status and what it told.
unfoldable pub spawn_client_connect_task :
    ClientFlow → FlowNet → NetworkStatus → NetworkStatus × List AppEvent
unfolding run_client_connect_flow
spawn_client_connect_task f net s =
    let r = run_client_connect_flow f net s in
    report f net.cancelled_at_end r.result r.status r.told
