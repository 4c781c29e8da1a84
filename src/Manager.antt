-- ===== src/Manager.antt =====
-- src/manager.rs: the status operations of `NetworkManager`. Each takes the lock of the status for
-- the whole of its change, so each is one step from a status to the next.
pub mod Logs
pub mod Peers
pub mod Host
pub mod Connect
pub mod Sessions
pub mod Flow
pub mod Subscription
pub mod Links
pub mod Presence
pub mod E4mc
use p2p_core.Base.{
  ℕ, String, Bool, List, Option, [], any, count_if, false, if◌then◌else◌, length, ltb, none, some,
  str_eq, take, true, ◌++◌, ◌∷◌,
}
use p2p_core.Models.{SessionMode, ConnectionState, PeerInfo, NetworkStatus, default_status}

abbrev pub is_host : SessionMode → Bool
is_host SessionMode.host = true
is_host SessionMode.idle = false
is_host SessionMode.client = false

-- What `mutate_status` does after each change.
unfoldable pub recount : NetworkStatus → NetworkStatus
recount s = record s { peer_count = count_if (λ p. p.connected) s.peers }

unfoldable pub mutate_status : (NetworkStatus → NetworkStatus) → NetworkStatus → NetworkStatus
mutate_status update s = recount (update s)

abbrev pub log_limit : ℕ
log_limit = 64

unfoldable pub push_log : String → NetworkStatus → NetworkStatus
push_log entry = mutate_status (λ s.
    let logs : List String = entry ∷ s.logs in
    record s { logs = if ltb log_limit (length logs) then take log_limit logs else logs })

-- `transport.or_else(|| peer.transport)`
abbrev pub or_else : Option String → Option String → Option String
or_else none b = b
or_else (some a) b = some a

abbrev pub has_peer : String → List PeerInfo → Bool
has_peer id [] = false
has_peer id (p ∷ ps) = if str_eq p.peer_id id then true else has_peer id ps

-- `iter_mut().find(..)`: the first peer of that name is changed.
unfoldable pub change_peers : String → (PeerInfo → PeerInfo) → List PeerInfo → List PeerInfo
change_peers id f [] = []
change_peers id f (p ∷ ps) = if str_eq p.peer_id id then f p ∷ ps else p ∷ change_peers id f ps

abbrev pub renewed : PeerInfo → PeerInfo → PeerInfo
renewed new p = record new { peer_id = p.peer_id; transport = or_else new.transport p.transport }

unfoldable pub upsert_peers : PeerInfo → List PeerInfo → List PeerInfo
upsert_peers new ps =
    if has_peer new.peer_id ps then change_peers new.peer_id (renewed new) ps else ps ++ (new ∷ [])

abbrev pub host_state : List PeerInfo → ConnectionState
host_state ps =
    if any (λ p. p.connected) ps then ConnectionState.connected else ConnectionState.hosting

unfoldable pub upsert_peer : PeerInfo → NetworkStatus → NetworkStatus
upsert_peer new = mutate_status (λ s.
    let ps = upsert_peers new s.peers in
    if is_host s.mode
    then record s { peers = ps; state = host_state ps }
    else record s { peers = ps })

unfoldable pub update_peer_ping : String → ℕ → NetworkStatus → NetworkStatus
update_peer_ping id ping =
    mutate_status
      (λ s. record s { peers = change_peers id (λ p. record p { ping_ms = some ping }) s.peers })

unfoldable pub mark_peer_disconnected : String → NetworkStatus → NetworkStatus
mark_peer_disconnected id = mutate_status (λ s.
    let ps = change_peers id (λ p. record p { connected = false }) s.peers in
    if is_host s.mode
    then record s {
      peers = ps;
      state = ConnectionState.hosting;
      note = some "Игрок отключился, хост остаётся активным.";
    }
    else record s { peers = ps })

unfoldable pub set_nonfatal : String → NetworkStatus → NetworkStatus
set_nonfatal message s =
    push_log message (mutate_status (λ t. record t { last_error = some message }) s)

-- The whole status is replaced; `error` is the error as the code formats it.
unfoldable pub mark_fatal : SessionMode → Option String → String → NetworkStatus → NetworkStatus
mark_fatal mode room_code error s = record default_status {
  mode = mode;
  state = ConnectionState.error;
  room_code = room_code;
  signaling_server = "mcp2p-lobby";
  last_error = some error;
  note = some "Сессия завершилась с ошибкой.";
  logs = error ∷ [];
}

-- The status that `reset_session` leaves.
abbrev pub cleared_status : NetworkStatus
cleared_status = record default_status {
  signaling_server = "mcp2p-lobby";
  logs = "Session cleared." ∷ [];
}
