-- ===== src/Manager/Sessions/Relays.antt =====
-- src/manager.rs: what the tasks of a host session change in it, with the token and the task of each
-- relay. A step is taken whole, and while its session is there.
use p2p_core.Base.{
  text_key, ℕ, String, List, Option, Outcome, ok, err, panic, out_of_fuel, [], if◌then◌else◌,
  insert, lookup, none, some, str_eq, ◌+◌, ◌∷◌,
}
use p2p_core.Net.{SocketAddr, show_addr}
use p2p_core.Manager.Host.{
  Connection, HostSession, KickError, accept_connection, connection_ended, kick_peer, or_address,
  start_host_relay,
}
use p2p_core.Manager.Sessions.{
  done, failed, Result, SessionControl, World, host, prepared_client, client, HostControl,
  HostRelayRuntime, SessionRuntime, end_relay,
}
use p2p_core.Manager.Sessions.Commands.{host_view, with_host}

-- The task of `start_host_runtime` and its token. The task goes on where its start is told to have failed.
abbrev pub spawn_relay : World → World
spawn_relay w = record w {
  fresh = w.fresh + 2;
  tasks = (w.fresh + 1) ∷ w.tasks;
  tokens = w.fresh ∷ w.tokens;
}

-- `start_or_replace_host_relay`
abbrev pub arm_relay :
    String → String → Result (Unit {0}) → SessionRuntime → HostControl → World → World
arm_relay id session_id (done ready) r h w =
    let armed : HostRelayRuntime = record {
      session_id = session_id;
      cancel = w.fresh;
      runtime = w.fresh + 1;
    } in
    end_relay (lookup id h.relay_sessions) (
      with_host r (record h { relay_sessions = insert id armed h.relay_sessions })
        (start_host_relay id session_id none (host_view h w)) (spawn_relay w))
arm_relay id session_id (failed e) r h w =
    with_host r h (start_host_relay id session_id (some e) (host_view h w)) (spawn_relay w)

-- `relay_sessions.remove(peer_id)`: a name stands once.
unfoldable pub take_out :
    String → List (String × HostRelayRuntime) → List (String × HostRelayRuntime)
take_out id [] = []
take_out id ((k, r) ∷ rs) = let rest = take_out id rs in if str_eq k id then rs else (k, r) ∷ rest

-- One connection that `spawn_host_accept_loop` takes; the relay of its peer ends.
abbrev pub accept_direct :
    SocketAddr → Connection → ℕ → SessionRuntime → HostControl → World → World
accept_direct remote conn rtt r h w =
    let id = or_address (lookup (show_addr remote) h.expected_peers) remote in
    end_relay (lookup id h.relay_sessions) (
      with_host r (record h { relay_sessions = take_out id h.relay_sessions })
        (accept_connection remote conn rtt (host_view h w)) w)

abbrev pub kicked : SessionRuntime → HostControl → Outcome KickError HostSession → World → World
kicked r h (ok v) w = with_host r h v w
kicked r h (err e) w = w
kicked r h panic w = w
kicked r h out_of_fuel w = w

pub data HostStep : Type 0 where
  arms : String → String → Result (Unit {0}) → HostStep
  takes : SocketAddr → Connection → ℕ → HostStep
  ends_connection : String → HostStep
  kicks_peer : String → HostStep

unfoldable pub host_step : HostStep → SessionRuntime → HostControl → World → World
unfolding take_out start_host_relay accept_connection connection_ended kick_peer
host_step (arms id session_id started) r h w = arm_relay id session_id started r h w
host_step (takes remote conn rtt) r h w = accept_direct remote conn rtt r h w
host_step (ends_connection id) r h w = with_host r h (connection_ended id (host_view h w)) w
host_step (kicks_peer id) r h w = kicked r h (kick_peer id (host_view h w)) w

abbrev pub on_control : HostStep → SessionControl → SessionRuntime → World → World
on_control s (host h) r w = host_step s r h w
on_control s (prepared_client c) r w = w
on_control s (client a) r w = w

abbrev pub on_host : HostStep → Option SessionRuntime → World → World
on_host s none w = w
on_host s (some r) w = on_control s r.control r w
