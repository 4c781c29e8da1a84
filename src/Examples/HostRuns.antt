-- ===== src/Examples/HostRuns.antt =====
-- src/manager.rs at concrete sessions.
use p2p_core.Base.{
  text_key, All, [], arith, contains_key, false, none, refl, some, true, ◌∷◌, ◌≡◌, if◌then◌else◌,
  ◌≤◌, ok, ℕ, ◌==◌, ◌↔◌,
}
use p2p_core.Net.{SocketAddr, v4, show_addr}
use p2p_core.Models.{SessionMode, ConnectionState, PeerInfo, NetworkStatus, default_status}
use p2p_core.Manager.Connect.{
  Attempt, established, not_started, Decides, here, next, turns_needed, connect_with_retries,
  connect_with_retries-Decides,
}
use p2p_core.Manager.Peers.{Distinct, names}
use p2p_core.Manager.Host.{HostSession, accept_connection, punch_from_host, direct_peer}
use p2p_core.Manager.Host.Live.{Reaches, starts, accepts, punches, connected_peers_live}

abbrev hosting_status : NetworkStatus
hosting_status = record default_status { mode = SessionMode.host; state = ConnectionState.hosting }

abbrev fresh : HostSession
fresh = record {
  status = hosting_status;
  expected_peers = [];
  live_connections = [];
  relay_sessions = [];
  force_direct = false;
  effects = [];
}

abbrev home : SocketAddr
home = record { ip = v4 192 0 2 10; port = 40000 }

abbrev punched : HostSession
punched = punch_from_host home (some "anna") none fresh

abbrev arrived : HostSession
arrived = accept_connection home 1 25 punched

Reaches-arrived : Reaches fresh arrived
Reaches-arrived = accepts home 1 25 punched (punches home (some "anna") none fresh starts)

connected_peers_live_example :
    Distinct (names arrived.status.peers)
    × All
        (λ p. p.connected ≡ true → contains_key p.peer_id arrived.live_connections ≡ true)
        arrived.status.peers
connected_peers_live_example = connected_peers_live fresh arrived refl Reaches-arrived

abbrev anna : PeerInfo
anna = direct_peer "anna" home true (some 25)

abbrev boris : PeerInfo
boris = direct_peer "boris" home true none

abbrev two_peers : NetworkStatus
two_peers = record hosting_status { peers = anna ∷ boris ∷ []; peer_count = 2 }

-- A relay was armed for the peer that arrives.
abbrev armed : HostSession
armed = record fresh {
  expected_peers = (show_addr home, "anna") ∷ [];
  relay_sessions = ("anna", "session") ∷ [];
}

-- The first attempt does not start, the second establishes connection 7.
abbrev second_time : ℕ → Attempt
second_time n = if n == 2 then established 7 else not_started "no route"

abbrev decides_second : Decides (λ n. false) second_time 1 7
decides_second = next refl (λ d e. cc e) (here refl refl)

connect_with_retries-Decides_example :
    ((connect_with_retries (λ n. false) second_time default_status).0 ≡ ok 7)
    ↔ ((d : Decides (λ n. false) second_time 1 7) × (turns_needed d ≤ 10))
connect_with_retries-Decides_example =
    connect_with_retries-Decides (λ n. false) second_time default_status 7

connects : (connect_with_retries (λ n. false) second_time default_status).0 ≡ ok 7
connects =
    (connect_with_retries-Decides (λ n. false) second_time default_status 7).1
      (decides_second, omega arith)
