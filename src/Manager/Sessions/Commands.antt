-- ===== src/Manager/Sessions/Commands.antt =====
-- src/manager.rs: `connect_to_peer`, `prepare_client_connect`, `commit_prepared_client_connect` and
-- `kick_peer` over the session of any kind. The reader of socket addresses is a parameter, and `none`
-- is its error.
use p2p_core.Base.{Option, String, List, [], if◌then◌else◌, none, some, str_eq, ◌+◌, ◌∷◌}
use p2p_core.Net.{SocketAddr, show_addr}
use p2p_core.Text.{◌⧺◌, trim}
use p2p_core.Models.{NetworkStatus, SessionMode, ConnectionState}
use p2p_core.Manager.{mutate_status}
use p2p_core.Manager.Host.{HostSession, punch_from_host}
use p2p_core.Manager.Sessions.{
  done, failed, SessionControl, Result, World, host, prepared_client, client, HostControl,
  HostRelayRuntime, PreparedClientControl, SessionRuntime, abort_all, reset_session, set_status,
}
use p2p_core.Manager.Sessions.Hosting.{or_text}
use p2p_core.Manager.Sessions.Joining.{ClientNet, prepare_client, start_client_connect}

abbrev pub session_names : List (String × HostRelayRuntime) → List (String × String)
session_names [] = []
session_names ((id, r) ∷ rs) = (id, r.session_id) ∷ session_names rs

-- The host's part of the world, and its return but for the relays.
abbrev pub host_view : HostControl → World → HostSession
host_view h w = record {
  status = w.status;
  expected_peers = h.expected_peers;
  live_connections = h.live_connections;
  relay_sessions = session_names h.relay_sessions;
  force_direct = h.force_direct;
  effects = w.effects;
}

abbrev pub with_host : SessionRuntime → HostControl → HostSession → World → World
with_host r h v w = record w {
  session = some (record r {
    control =
        SessionControl.host
          (record h { expected_peers = v.expected_peers; live_connections = v.live_connections });
  });
  status = v.status;
  effects = v.effects;
}

-- `punch_from_host`: nothing unless the session is a host's.
abbrev pub punch_control :
    SocketAddr
    → Option String
    → Option String
    → SessionRuntime
    → SessionControl
    → World
    → Option World
punch_control a peer_id relay r (prepared_client c) w = none
punch_control a peer_id relay r (client addr) w = none
punch_control a peer_id relay r (host h) w =
    some (with_host r h (punch_from_host a peer_id relay (host_view h w)) w)

abbrev pub punch_session :
    SocketAddr → Option String → Option String → Option SessionRuntime → World → Option World
punch_session a peer_id relay none w = none
punch_session a peer_id relay (some r) w = punch_control a peer_id relay r r.control w

abbrev pub plain_client : SocketAddr → Option String → PreparedClientControl
plain_client a peer_id =
    let id = or_text peer_id (show_addr a) in
    record {
      peer_addr = a;
      peer_id = id;
      room_name = "P2P " ⧺ id;
      host_name = id;
      mc_version = "Unknown";
      slots = "1/30";
    }

abbrev pub punched_or : Option World → Result (Unit {0}) × World → Result (Unit {0}) × World
punched_or none other = other
punched_or (some w) other = (done tt, w)

abbrev pub with_address :
    String
    → Option SocketAddr
    → (SocketAddr → World → Result (Unit {0}) × World)
    → World
    → Result (Unit {0}) × World
with_address text none go w = (failed ("invalid socket address: " ⧺ text), w)
with_address text (some a) go w = go a w

abbrev pub read_address :
    (String → Option SocketAddr)
    → String
    → (SocketAddr → World → Result (Unit {0}) × World)
    → World
    → Result (Unit {0}) × World
read_address parse_addr text go w =
    if str_eq (trim text) ""
    then (failed "peer address must not be empty", w)
    else with_address (trim text) (parse_addr (trim text)) go w

-- The names that `prepare_client_connect` may be given.
pub record Names : Type 0 where
  pub peer_id : Option String
  pub room_name : Option String
  pub host_name : Option String
  pub mc_version : Option String
  pub slots : Option String

abbrev pub named_client : SocketAddr → Names → PreparedClientControl
named_client a n =
    let id = or_text n.peer_id (show_addr a) in
    record {
      peer_addr = a;
      peer_id = id;
      room_name = or_text n.room_name ("P2P " ⧺ id);
      host_name = or_text n.host_name id;
      mc_version = or_text n.mc_version "Unknown";
      slots = or_text n.slots "1/30";
    }

module _ (parse_addr : String → Option SocketAddr) where
  unfoldable pub connect_to_peer :
      String → Option String → Option String → ClientNet → World → Result (Unit {0}) × World
  unfolding start_client_connect reset_session
  connect_to_peer peer_addr peer_id relay net = read_address parse_addr peer_addr (λ a w.
      punched_or (punch_session a peer_id relay w.session w)
        (start_client_connect net (plain_client a peer_id) (reset_session w)))

  unfoldable pub prepare_client_connect :
      String → Names → ClientNet → World → Result (Unit {0}) × World
  unfolding prepare_client
  prepare_client_connect peer_addr n net =
      read_address parse_addr peer_addr (λ a. prepare_client net (named_client a n))

abbrev pub committed : String → NetworkStatus → NetworkStatus
committed peer_id = mutate_status (λ s. record s {
  mode = SessionMode.client;
  state = ConnectionState.connecting;
  note = some ("Handshake подтвержден хостом " ⧺ peer_id ⧺ ". Пробую direct QUIC и fallback.");
})

-- Another session is put back without its tasks, which are aborted.
unfoldable pub put_back : SessionRuntime → World → Result (Unit {0}) × World
put_back r w = (
  failed "клиентский endpoint не подготовлен",
  abort_all r.tasks (record w { session = some (record r { tasks = [] }) }),
)

abbrev pub commit_control : SessionRuntime → SessionControl → World → Result (Unit {0}) × World
commit_control r (host h) w = put_back r w
commit_control r (client a) w = put_back r w
commit_control r (prepared_client c) w =
    let cleared = abort_all r.tasks w in
    (
      done tt,
      set_status (committed c.peer_id) (record cleared {
        session = some (record {
          cancel = r.cancel;
          tasks = w.fresh ∷ [];
          control = SessionControl.client c.peer_addr;
        });
        fresh = w.fresh + 1;
        tasks = w.fresh ∷ cleared.tasks;
      }),
    )

abbrev pub commit_session : Option SessionRuntime → World → Result (Unit {0}) × World
commit_session none w = (failed "подготовленной клиентской сессии нет", w)
commit_session (some r) w = commit_control r r.control w

unfoldable pub commit_prepared_client_connect : World → Result (Unit {0}) × World
unfolding put_back
commit_prepared_client_connect w = commit_session w.session w
