-- ===== src/Manager/Sessions/Joining.antt =====
-- src/manager.rs: how a client session begins, `prepare_client_control`, `prepare_client_connect` and
-- `start_client_connect`. What the sockets and the STUN servers come to is an argument.
use p2p_core.Base.{ℕ, List, Option, String, [], false, none, some, ◌+◌, ◌∷◌}
use p2p_core.Net.{SocketAddr, IpAddr, show_addr}
use p2p_core.Text.{◌⧺◌}
use p2p_core.Models.{NetworkStatus, PeerInfo, SessionMode, ConnectionState, default_status}
use p2p_core.Manager.{push_log}
use p2p_core.Manager.Sessions.{
  done, failed, SessionControl, Result, World, PreparedClientControl, overwrite_status,
  reset_session, set_status,
}
use p2p_core.Manager.Sessions.Hosting.{Interface, joined, local_ips, or_text}

-- The bound socket, the STUN discovery, the address of the interface that routes out, the QUIC
-- endpoint, and the interfaces.
pub record ClientNet : Type 0 where
  pub bound : Result SocketAddr
  pub public_addr : Result SocketAddr
  pub local_ip : Option IpAddr
  pub endpoint : Result (Unit {0})
  pub interfaces : List Interface

-- The public address, or the local one under the bound port.
unfoldable pub public_or_local : Result SocketAddr → Option IpAddr → ℕ → Option SocketAddr
public_or_local (done a) ip port = some a
public_or_local (failed e) none port = none
public_or_local (failed e) (some ip) port = some (record { ip = ip; port = port })

abbrev pub discovery_log : Result SocketAddr → Option IpAddr → ℕ → NetworkStatus → NetworkStatus
discovery_log (done a) ip port s = s
discovery_log (failed e) none port s =
    push_log ("STUN discovery failed, proceeding in Relay mode: " ⧺ e) s
discovery_log (failed e) (some ip) port s =
    push_log
      ("STUN discovery failed, using Local IP fallback: "
        ⧺ show_addr (record { ip = ip; port = port })
        ⧺ " (Error: "
        ⧺ e
        ⧺ ")")
      s

-- `prepare_client_control` up to the bound and the public address.
abbrev pub endpoint_made :
    Result (Unit {0}) → SocketAddr → Option SocketAddr → Result (SocketAddr × Option SocketAddr)
endpoint_made (failed e) bound public = failed e
endpoint_made (done ready) bound public = done (bound, public)

abbrev pub client_bound : ClientNet → Result SocketAddr → Result (SocketAddr × Option SocketAddr)
client_bound net (failed e) = failed e
client_bound net (done addr) =
    endpoint_made net.endpoint addr (public_or_local net.public_addr net.local_ip addr.port)

abbrev pub bound_log : ClientNet → Result SocketAddr → NetworkStatus → NetworkStatus
bound_log net (failed e) s = s
bound_log net (done addr) s = discovery_log net.public_addr net.local_ip addr.port s

unfoldable pub prepare_client_control :
    ClientNet → World → Result (SocketAddr × Option SocketAddr) × World
unfolding public_or_local
prepare_client_control net w = (client_bound net net.bound, set_status (bound_log net net.bound) w)

abbrev pub shown_addr : Option SocketAddr → Option String
shown_addr none = none
shown_addr (some a) = some (show_addr a)

abbrev pub waiting_peer : PreparedClientControl → PeerInfo
waiting_peer c = record {
  peer_id = c.peer_id;
  addr = show_addr c.peer_addr;
  connected = false;
  ping_ms = none;
  transport = some "direct-quic";
}

-- The status of a client that has its endpoint.
unfoldable pub waiting_status :
    PreparedClientControl → SocketAddr → Option SocketAddr → Option String → String → NetworkStatus
waiting_status c bound public local note = record default_status {
  mode = SessionMode.client;
  state = ConnectionState.waiting_for_peer;
  udp_bind_addr = some (show_addr bound);
  local_udp_addr = local;
  public_udp_addr = shown_addr public;
  signaling_server = "mcp2p-lobby";
  note = some note;
  peers = waiting_peer c ∷ [];
  logs =
      ("Client bind: " ⧺ show_addr bound)
      ∷ ("Client public UDP: " ⧺ or_text (shown_addr public) "Unknown")
      ∷ ("Client target: " ⧺ show_addr c.peer_addr)
      ∷ [];
}

-- A session with a token and no task.
unfoldable pub open_prepared : PreparedClientControl → World → World
open_prepared c w = record w {
  session =
      some (record { cancel = w.fresh; tasks = []; control = SessionControl.prepared_client c });
  fresh = w.fresh + 1;
  tokens = w.fresh ∷ w.tokens;
}

-- A session with a token and the task that connects.
unfoldable pub open_client : SocketAddr → World → World
open_client a w = record w {
  session =
      some (record {
        cancel = w.fresh;
        tasks = (w.fresh + 1) ∷ [];
        control = SessionControl.client a;
      });
  fresh = w.fresh + 2;
  tasks = (w.fresh + 1) ∷ w.tasks;
  tokens = w.fresh ∷ w.tokens;
}

abbrev pub keep_prepared :
    PreparedClientControl
    → Result (SocketAddr × Option SocketAddr) × World
    → Result (Unit {0}) × World
keep_prepared c (failed e, w) = (failed e, w)
keep_prepared c (done (bound, public), w) = (
  done tt,
  open_prepared c (
      overwrite_status
        (waiting_status c bound public none
          "Client UDP endpoint prepared. Waiting for relay ack from host.")
        w),
)

-- `prepare_client_connect` after its address is read.
unfoldable pub prepare_client :
    ClientNet → PreparedClientControl → World → Result (Unit {0}) × World
unfolding prepare_client_control open_prepared
prepare_client net c w = keep_prepared c (prepare_client_control net (reset_session w))

abbrev pub run_prepared :
    ClientNet
    → PreparedClientControl
    → Result (SocketAddr × Option SocketAddr) × World
    → Result (Unit {0}) × World
run_prepared net c (failed e, w) = (failed e, w)
run_prepared net c (done (bound, public), w) = (
  done tt,
  open_client c.peer_addr (
      overwrite_status
        (waiting_status c bound public (joined ", " (local_ips net.interfaces bound.port))
          "Client ready. Sending handshake and waiting for host.")
        w),
)

unfoldable pub start_client_connect :
    ClientNet → PreparedClientControl → World → Result (Unit {0}) × World
unfolding prepare_client_control open_client local_ips
start_client_connect net c w = run_prepared net c (prepare_client_control net w)
