-- ===== src/Manager/Host.antt =====
-- src/manager.rs: what changes a host session after it has started: `connect_to_peer` on a host
-- (`punch_from_host`), the accept loop, the end of a connection, the relays and `kick_peer`. The
-- changes that a task makes one after the other, each under a lock of its own, are taken together as
-- one step; the steps of the tasks come in any order, but none comes within another.
pub mod Changes
pub mod Backed
pub mod Live
pub mod Races
use p2p_core.Base.{
  text_key, ℕ, String, Bool, List, Option, Outcome, [], false, if◌then◌else◌, insert, lookup, none,
  not, ok, ok_or, remove, some, str_eq, true, ◌&&◌, ◌++◌, ◌>>=◌, ◌∷◌, any,
}
use p2p_core.Net.{SocketAddr, show_addr}
use p2p_core.Text.{◌⧺◌}
use p2p_core.Models.{ConnectionState, PeerInfo, NetworkStatus}
use p2p_core.Manager.{mutate_status, push_log, upsert_peer, mark_peer_disconnected, set_nonfatal}

-- A QUIC connection, as the session sees it: a number that no other connection has.
abbrev pub Connection : Type 0
Connection = ℕ

pub data Effect : Type 0 where
  close : Connection → ℕ → String → Effect
  cancel_relay : String → Effect

pub record HostSession : Type 0 where
  pub status : NetworkStatus
  pub expected_peers : List (String × String)
  pub live_connections : List (String × Connection)
  pub relay_sessions : List (String × String)
  pub force_direct : Bool
  pub effects : List Effect

-- `Connection::close` and the abort of a relay are recorded, oldest first.
abbrev pub effect : Effect → HostSession → HostSession
effect e h = record h { effects = h.effects ++ (e ∷ []) }

abbrev pub on_status : (NetworkStatus → NetworkStatus) → HostSession → HostSession
on_status f h = record h { status = f h.status }

-- `expected_peers` is keyed by the text of the address.
abbrev pub display_peer : SocketAddr → Option String → String
display_peer a none = show_addr a
display_peer a (some id) = id

abbrev pub expect : SocketAddr → Option String → List (String × String) → List (String × String)
expect a none peers = peers
expect a (some id) peers = insert (show_addr a) id peers

abbrev pub punching : String → NetworkStatus → NetworkStatus
punching peer = mutate_status (λ s. record s {
  state = ConnectionState.punching;
  note = some ("Игрок подключается... Пробиваем NAT для " ⧺ peer ⧺ ".");
})

abbrev pub direct_peer : String → SocketAddr → Bool → Option ℕ → PeerInfo
direct_peer id a up ping = record {
  peer_id = id;
  addr = show_addr a;
  connected = up;
  ping_ms = ping;
  transport = some "direct-quic";
}

abbrev pub skip_relay : String → Option String → Bool → NetworkStatus → NetworkStatus
skip_relay peer none forced s = s
skip_relay peer (some session_id) forced s =
    if forced then push_log ("Relay skipped for " ⧺ peer ⧺ " due to Force Direct Mode") s else s

-- The part of `punch_from_host` before the tasks that it spawns.
unfoldable pub punch_from_host :
    SocketAddr → Option String → Option String → HostSession → HostSession
punch_from_host a announced relay_session_id h =
    let peer = display_peer a announced in
    on_status
      (λ s. skip_relay peer relay_session_id h.force_direct (
        push_log ("Host punch -> " ⧺ peer ⧺ " (" ⧺ show_addr a ⧺ ")")
          (upsert_peer (direct_peer peer a false none) (punching peer s))))
      (record h { expected_peers = expect a announced h.expected_peers })

-- The first peer of that name that is not connected, taken out.
abbrev pub has_waiting : String → List PeerInfo → Bool
has_waiting id ps = any (λ p. str_eq p.peer_id id && not p.connected) ps

unfoldable pub remove_waiting : String → List PeerInfo → List PeerInfo
remove_waiting id [] = []
remove_waiting id (p ∷ ps) =
    if str_eq p.peer_id id && not p.connected then ps else p ∷ remove_waiting id ps

unfoldable pub expire : String → NetworkStatus → NetworkStatus
expire id = mutate_status (λ s.
    if has_waiting id s.peers
    then record s {
      peers = remove_waiting id s.peers;
      logs = s.logs ++ (("Peer " ⧺ id ⧺ " timed out connecting") ∷ []);
    }
    else s)

abbrev pub forget_peer : String → List (String × String) → List (String × String)
forget_peer id [] = []
forget_peer id ((a, n) ∷ es) = if str_eq n id then forget_peer id es else (a, n) ∷ forget_peer id es

-- The end of the punch task, 20 seconds after the punch.
unfoldable pub punch_timeout : String → HostSession → HostSession
punch_timeout id h =
    let waited = on_status (expire id) h in
    record waited { expected_peers = forget_peer id waited.expected_peers }

-- `start_or_replace_host_relay`; `started` is what `start_host_runtime` returns.
unfoldable pub replace_relay : String → Option String → HostSession → HostSession
replace_relay id none h = h
replace_relay id (some previous) h = effect (cancel_relay previous) h

unfoldable pub start_host_relay : String → String → Option String → HostSession → HostSession
start_host_relay id session_id none h =
    let armed =
      replace_relay id (lookup id h.relay_sessions)
        (record h { relay_sessions = insert id session_id h.relay_sessions }) in
    on_status
      (push_log
        ("Host armed WSS (443) relay fallback for " ⧺ id ⧺ " via session " ⧺ session_id ⧺ "."))
      armed
start_host_relay id session_id (some error) h =
    on_status
      (set_nonfatal ("failed to bootstrap host WSS relay session " ⧺ session_id ⧺ ": " ⧺ error)) h

unfoldable pub cancel_found : String → Option String → HostSession → HostSession
cancel_found id none h = h
cancel_found id (some session_id) h =
    on_status
      (push_log ("Direct QUIC won for " ⧺ id ⧺ "; WSS relay session " ⧺ session_id ⧺ " cancelled."))
      (effect (cancel_relay session_id) (record h { relay_sessions = remove id h.relay_sessions }))

unfoldable pub cancel_host_relay_for_peer : String → HostSession → HostSession
cancel_host_relay_for_peer id h = cancel_found id (lookup id h.relay_sessions) h

abbrev pub or_address : Option String → SocketAddr → String
or_address none a = show_addr a
or_address (some id) a = id

-- One connection that `spawn_host_accept_loop` takes.
unfoldable pub accept_connection : SocketAddr → Connection → ℕ → HostSession → HostSession
accept_connection remote conn rtt h =
    let id = or_address (lookup (show_addr remote) h.expected_peers) remote in
    let known = record h {
      expected_peers = remove (show_addr remote) h.expected_peers;
      live_connections = insert id conn h.live_connections;
    } in
    on_status
      (λ s.
        push_log ("Host принял peer " ⧺ id ⧺ " (" ⧺ show_addr remote ⧺ ")")
          (upsert_peer (direct_peer id remote true (some rtt)) s))
      (cancel_host_relay_for_peer id known)

-- The end of `handle_host_connection`.
unfoldable pub connection_ended : String → HostSession → HostSession
connection_ended id h =
    on_status (mark_peer_disconnected id)
      (record h { live_connections = remove id h.live_connections })

pub data KickError : Type 0 where
  not_found : String → KickError

-- `kick_peer` on a host session.
unfoldable pub kick_peer : String → HostSession → Outcome KickError HostSession
kick_peer id h = do
  conn ← ok_or (lookup id h.live_connections) (not_found id)
  ok (
      on_status (λ s. push_log ("Игрок " ⧺ id ⧺ " отключён хостом.") (mark_peer_disconnected id s))
        (effect (close conn 1 "kicked-by-host")
          (record h { live_connections = remove id h.live_connections })))
