-- ===== src/Manager/Links.antt =====
-- src/manager.rs: what runs on an open connection of a client. What the connection and the listener
-- give is an argument.
pub mod Open
pub mod Ends
use p2p_core.Base.{
  ℕ, Bool, List, [], ◌∷◌, Option, String, false, if◌then◌else◌, none, some, suc, true, zero, ◌+◌,
}
use p2p_core.Text.{◌⧺◌}
use p2p_core.Models.{NetworkStatus, SessionMode}
use p2p_core.Manager.{mark_fatal, mark_peer_disconnected, set_nonfatal, update_peer_ping}
use p2p_core.Manager.Sessions.{done, failed, Result}

-- `open_bi` within two seconds.
pub data Opening : Type 0 where
  stream : ℕ → Opening
  refused : String → Opening
  slow : Opening

abbrev pub opening_error : Option String → String
opening_error none = "не удалось открыть QUIC stream до хоста"
opening_error (some e) = e

abbrev pub opening_turn : Opening → (String → Result ℕ) → Result ℕ
opening_turn (stream s) again = done s
opening_turn (refused e) again = again e
opening_turn slow again = again "open_bi timed out"

-- The attempts of `handle_client_proxy_connection`: `n` are left, of which the next has the number
-- `attempt`.
unfoldable pub open_loop : (ℕ → Opening) → ℕ → ℕ → Option String → Result ℕ
open_loop net zero attempt last = failed (opening_error last)
open_loop net (suc n) attempt last =
    let again : String → Result ℕ = λ e. open_loop net n (attempt + 1) (some e) in
    opening_turn (net attempt) again

unfoldable pub open_stream : (ℕ → Opening) → Result ℕ
unfolding open_loop
open_stream net = open_loop net 3 1 none

-- The rest of a proxied connection: its bridge.
abbrev pub bridged : Result ℕ → Result (Unit {0}) → Result (Unit {0})
bridged (failed e) bridge = failed e
bridged (done s) bridge = bridge

unfoldable pub handle_client_proxy_connection :
    (ℕ → Opening) → Result (Unit {0}) → Result (Unit {0})
unfolding open_stream
handle_client_proxy_connection net bridge = bridged (open_stream net) bridge

abbrev pub proxy_error : Result (Unit {0}) → NetworkStatus → NetworkStatus
proxy_error (done ended) s = s
proxy_error (failed e) s = set_nonfatal ("локальный TCP->QUIC proxy завершился ошибкой: " ⧺ e) s

-- `spawn_client_proxy_loop`, by what happens in turn: a connection comes, one that came before has
-- ended, or the listener fails, where the token may be cancelled.
pub data ProxyEvent : Type 0 where
  incoming : ProxyEvent
  proxied : Result (Unit {0}) → ProxyEvent
  listener_failed : Bool → String → ProxyEvent
  cancelled : ProxyEvent

abbrev pub listener_error : Bool → String → NetworkStatus → NetworkStatus
listener_error true e s = s
listener_error false e s = set_nonfatal ("local proxy listener failed: " ⧺ e) s

-- Whether the loop still accepts, how many connections it took, and the status.
pub record Proxy : Type 0 where
  pub accepting : Bool
  pub taken : ℕ
  pub status : NetworkStatus

unfoldable pub proxy_step : ProxyEvent → Proxy → Proxy
proxy_step incoming p = if p.accepting then record p { taken = p.taken + 1 } else p
proxy_step (proxied r) p = record p { status = proxy_error r p.status }
proxy_step (listener_failed c e) p =
    if p.accepting then record p { accepting = false; status = listener_error c e p.status } else p
proxy_step cancelled p = record p { accepting = false }

-- `spawn_client_close_loop`, once the connection is closed.
unfoldable pub client_closed : Bool → String → String → NetworkStatus → NetworkStatus
client_closed true id error s = s
client_closed false id error s =
    mark_fatal SessionMode.client none ("QUIC connection closed: " ⧺ error)
      (mark_peer_disconnected id s)

-- What the three tasks of a direct connection meet: a round-trip time, an event of the proxy, and the
-- end of the connection, where the token may be cancelled.
pub data LinkEvent : Type 0 where
  rtt_read : ℕ → LinkEvent
  proxy_event : ProxyEvent → LinkEvent
  connection_closed : Bool → String → LinkEvent

unfoldable pub link_step : String → LinkEvent → Proxy → Proxy
unfolding proxy_step client_closed
link_step id (rtt_read ping) p = record p { status = update_peer_ping id ping p.status }
link_step id (proxy_event e) p = proxy_step e p
link_step id (connection_closed c e) p = record p { status = client_closed c id e p.status }

-- The tasks to the point where all of them have ended, or the token is cancelled.
unfoldable pub run_link : String → List LinkEvent → Proxy → Proxy
unfolding link_step
run_link id [] p = p
run_link id (e ∷ es) p = run_link id es (link_step id e p)
