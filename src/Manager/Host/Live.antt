-- ===== src/Manager/Host/Live.antt =====
-- The peers that a host shows as connected have a connection, in whatever order its tasks step.
use p2p_core.Base.{text_key, ℕ, String, Option, contains_key, ok, true, ◌≡◌, All, []}
use p2p_core.Net.{SocketAddr}
use p2p_core.Manager.{update_peer_ping}
use p2p_core.Manager.Peers.{Distinct, names}
use p2p_core.Manager.Host.{
  Connection, HostSession, accept_connection, connection_ended, kick_peer, on_status,
  punch_from_host, punch_timeout, start_host_relay,
}
use p2p_core.Manager.Host.Changes.{IsBacked}
use p2p_core.Manager.Host.Backed.{
  punch_from_host-IsBacked, punch_timeout-IsBacked, start_host_relay-IsBacked,
  accept_connection-IsBacked, connection_ended-IsBacked, kick_peer-IsBacked,
  update_peer_ping-IsBacked,
}

-- The states of a session, as its tasks step in any order.
pub data Reaches (start : HostSession) : HostSession → Type 0 where
  starts : Reaches start start
  punches :
      (a : SocketAddr) (announced relay_session_id : Option String) (h : HostSession)
      → Reaches start h
      → Reaches start (punch_from_host a announced relay_session_id h)
  times_out : (id : String) (h : HostSession) → Reaches start h → Reaches start (punch_timeout id h)
  starts_relay :
      (id session_id : String) (started : Option String) (h : HostSession)
      → Reaches start h
      → Reaches start (start_host_relay id session_id started h)
  accepts :
      (remote : SocketAddr) (conn : Connection) (rtt : ℕ) (h : HostSession)
      → Reaches start h
      → Reaches start (accept_connection remote conn rtt h)
  ends : (id : String) (h : HostSession) → Reaches start h → Reaches start (connection_ended id h)
  kicks :
      (id : String) (h k : HostSession) → kick_peer id h ≡ ok k → Reaches start h → Reaches start k
  pings :
      (id : String) (ping : ℕ) (h : HostSession)
      → Reaches start h
      → Reaches start (on_status (update_peer_ping id ping) h)

Reaches-IsBacked : (start h : HostSession) → IsBacked start → Reaches start h → IsBacked h
Reaches-IsBacked start h b starts = b
Reaches-IsBacked start h b (punches a n r g before) =
    punch_from_host-IsBacked a n r g (Reaches-IsBacked start g b before)
Reaches-IsBacked start h b (times_out id g before) =
    punch_timeout-IsBacked id g (Reaches-IsBacked start g b before)
Reaches-IsBacked start h b (starts_relay id s o g before) =
    start_host_relay-IsBacked id s o g (Reaches-IsBacked start g b before)
Reaches-IsBacked start h b (accepts a c r g before) =
    accept_connection-IsBacked a c r g (Reaches-IsBacked start g b before)
Reaches-IsBacked start h b (ends id g before) =
    connection_ended-IsBacked id g (Reaches-IsBacked start g b before)
Reaches-IsBacked start h b (kicks id g k e before) =
    kick_peer-IsBacked id g h e (Reaches-IsBacked start g b before)
Reaches-IsBacked start h b (pings id p g before) =
    update_peer_ping-IsBacked id p g (Reaches-IsBacked start g b before)

-- From a host without peers, in whatever order connections come and end, punches start and time
-- out, relays start, peers are kicked and pings come in, each as one step: no two peers have one
-- name, and every peer that is shown as connected has a connection in the map.
pub connected_peers_live :
    (start h : HostSession)
    → start.status.peers ≡ []
    → Reaches start h
    → Distinct (names h.status.peers)
      × All
          (λ p. p.connected ≡ true → contains_key p.peer_id h.live_connections ≡ true)
          h.status.peers
connected_peers_live start h empty reached = Reaches-IsBacked start h (rw empty (tt, tt)) reached
