-- ===== src/Manager/Sessions/Hosting.antt =====
-- src/manager.rs: `start_hosting`, `start_hosting_inner` and `stop_hosting`. What the sockets, the
-- version probe and the STUN servers come to is an argument.
use p2p_core.Base.{
  ℕ, Bool, List, Option, String, [], false, if◌then◌else◌, none, some, str_eq, true, ◌&&◌, ◌+◌,
  ◌==◌, ◌∷◌,
}
use p2p_core.Net.{v4, v6, SocketAddr, IpAddr, show_addr, show_ip}
use p2p_core.Text.{◌⧺◌, show_nat, join, trim}
use p2p_core.Models.{NetworkStatus, SessionMode, ConnectionState, default_status}
use p2p_core.Manager.{push_log, mark_fatal}
use p2p_core.Manager.Sessions.{
  done, failed, SessionControl, Result, World, HostControl, reset_session, SessionControl,
  overwrite_status, set_status,
}

pub record Interface : Type 0 where
  pub loopback : Bool
  pub ip : IpAddr

-- The IPv4 addresses that another machine can reach.
abbrev pub local_ip : IpAddr → ℕ → List String → List String
local_ip (v6 s) port rest = rest
local_ip (v4 a b c d) port rest =
    if (a == 169) && (b == 254) then rest else (show_ip (v4 a b c d) ⧺ ":" ⧺ show_nat port) ∷ rest

unfoldable pub local_ips : List Interface → ℕ → List String
local_ips [] port = []
local_ips (i ∷ is) port =
    let rest = local_ips is port in if i.loopback then rest else local_ip i.ip port rest

abbrev pub joined : String → List String → Option String
joined sep [] = none
joined sep (s ∷ ss) = some (join sep (s ∷ ss))

-- The arguments of `start_hosting`.
pub record HostArgs : Type 0 where
  pub room_name : String
  pub has_password : Bool
  pub local_port : ℕ
  pub enable_e4mc : Bool
  pub minecraft_version : Option String
  pub force_direct : Bool

-- The identifier drawn, the bound socket, the version probe, the STUN discovery with its limit of 8
-- seconds, the interfaces, and the QUIC endpoint.
pub record HostNet : Type 0 where
  pub peer_id : String
  pub bound : Result SocketAddr
  pub version : Result String
  pub public_addr : Result SocketAddr
  pub interfaces : List Interface
  pub endpoint : Result (Unit {0})

abbrev pub shown : Result SocketAddr → Option String
shown (done a) = some (show_addr a)
shown (failed e) = none

abbrev pub or_text : Option String → String → String
or_text none d = d
or_text (some s) d = s

abbrev pub is_text : Option String → String → Bool
is_text none t = false
is_text (some s) t = str_eq s t

abbrev pub detected : HostArgs → HostNet → Result String
detected a net =
    if is_text a.minecraft_version "Bedrock Edition" then done "Bedrock Edition" else net.version

abbrev pub version_of : Result String → Option String → Option String
version_of (done v) fallback = some v
version_of (failed e) fallback = fallback

abbrev pub version_log : Result String → ℕ → NetworkStatus → NetworkStatus
version_log (done v) port s = s
version_log (failed e) port s =
    push_log ("Failed to detect Minecraft version on 127.0.0.1:" ⧺ show_nat port ⧺ ": " ⧺ e) s

abbrev pub address_log : Result SocketAddr → NetworkStatus → NetworkStatus
address_log (done a) s = push_log ("Public UDP address: " ⧺ show_addr a) s
address_log (failed e) s = push_log ("STUN failed: " ⧺ e) s

unfoldable pub starting_status : HostArgs → NetworkStatus
starting_status a = record default_status {
  mode = SessionMode.host;
  state = ConnectionState.starting;
  room_code = some a.room_name;
  local_game_port = some a.local_port;
  password_protected = a.has_password;
  signaling_server = "mcp2p-lobby";
  note = some "Starting host endpoint and detecting local Minecraft version.";
  logs = ("Host starting: " ⧺ a.room_name) ∷ [];
}

unfoldable pub hosting_status : HostArgs → HostNet → SocketAddr → NetworkStatus
hosting_status a net addr =
    let version = version_of (detected a net) a.minecraft_version in
    record default_status {
      mode = SessionMode.host;
      state = ConnectionState.hosting;
      room_code = some a.room_name;
      udp_bind_addr = some (show_addr addr);
      local_udp_addr = joined "," (local_ips net.interfaces addr.port);
      public_udp_addr = shown net.public_addr;
      local_game_port = some a.local_port;
      minecraft_version = version;
      password_protected = a.has_password;
      signaling_server = "mcp2p-lobby";
      note = some (
          "Host active. Room: "
          ⧺ a.room_name
          ⧺ ". Local port: "
          ⧺ show_nat a.local_port
          ⧺ ". Version: "
          ⧺ or_text version "Unknown"
          ⧺ ".");
      logs =
          ("Public UDP address: " ⧺ or_text (shown net.public_addr) "Unknown")
          ∷ ("Local bind: " ⧺ show_addr addr)
          ∷ ("Host forwards to 127.0.0.1:" ⧺ show_nat a.local_port)
          ∷ [];
    }

-- The addresses that the host is told to publish.
unfoldable pub result_str : Option String → Option String → ℕ → String
result_str (some pub_ip) (some loc_ip) port = pub_ip ⧺ "," ⧺ loc_ip
result_str (some pub_ip) none port = pub_ip ⧺ ",0.0.0.0:" ⧺ show_nat port
result_str none (some loc_ip) port = "0.0.0.0:" ⧺ show_nat port ⧺ "," ⧺ loc_ip
result_str none none port = "0.0.0.0:" ⧺ show_nat port

-- `spawn_e4mc_host_runtime`: a token and a task.
abbrev pub e4mc_of : Bool → World → Option (ℕ × ℕ)
e4mc_of false w = none
e4mc_of true w = some (w.fresh, w.fresh + 1)

abbrev pub spawn_e4mc : Bool → World → World
spawn_e4mc false w = w
spawn_e4mc true w = record w {
  fresh = w.fresh + 2;
  tasks = (w.fresh + 1) ∷ w.tasks;
  tokens = w.fresh ∷ w.tokens;
}

abbrev pub new_host : HostArgs → HostNet → Option (ℕ × ℕ) → HostControl
new_host a net e4mc = record {
  room_name = a.room_name;
  peer_id = net.peer_id;
  local_game_port = a.local_port;
  expected_peers = [];
  live_connections = [];
  relay_sessions = [];
  e4mc_runtime = e4mc;
  force_direct = a.force_direct;
}

-- The accept and the lobby task, and the session that owns them.
unfoldable pub open_host : HostArgs → HostNet → Option (ℕ × ℕ) → World → World
open_host a net e4mc w = record w {
  session = some (record {
    cancel = w.fresh;
    tasks = (w.fresh + 1) ∷ (w.fresh + 2) ∷ [];
    control = SessionControl.host (new_host a net e4mc);
  });
  fresh = w.fresh + 3;
  tasks = (w.fresh + 1) ∷ (w.fresh + 2) ∷ w.tasks;
  tokens = w.fresh ∷ w.tokens;
}

abbrev pub host_endpoint :
    HostArgs
    → HostNet
    → Option (ℕ × ℕ)
    → SocketAddr
    → Result (Unit {0})
    → World
    → Result String × World
host_endpoint a net e4mc addr (failed e) w = (failed e, w)
host_endpoint a net e4mc addr (done ready) w = (
  done (
      result_str (shown net.public_addr) (joined "," (local_ips net.interfaces addr.port))
        addr.port),
  open_host a net e4mc (overwrite_status (hosting_status a net addr) w),
)

abbrev pub host_bound :
    HostArgs → HostNet → Option (ℕ × ℕ) → Result SocketAddr → World → Result String × World
host_bound a net e4mc (failed e) w = (failed e, w)
host_bound a net e4mc (done addr) w = host_endpoint a net e4mc addr net.endpoint (
    set_status
      (λ s. address_log net.public_addr (
        version_log (detected a net) a.local_port
          (push_log "Starting QUIC endpoint, detecting public address…" s)))
      w)

unfoldable pub start_hosting_inner : HostArgs → HostNet → World → Result String × World
unfolding open_host hosting_status starting_status local_ips
start_hosting_inner a net w =
    host_bound a net (e4mc_of a.enable_e4mc w) net.bound
      (overwrite_status (starting_status a) (spawn_e4mc a.enable_e4mc w))

abbrev pub or_fatal : SessionMode → Result String × World → Result String × World
or_fatal mode (done s, w) = (done s, w)
or_fatal mode (failed e, w) = (failed e, set_status (mark_fatal mode none e) w)

unfoldable pub start_hosting : HostArgs → HostNet → World → Result String × World
unfolding start_hosting_inner reset_session
start_hosting a net w =
    let named : HostArgs = record a { room_name = trim a.room_name } in
    if str_eq named.room_name ""
    then (failed "room name must not be empty", w)
    else if a.local_port == 0
    then (failed "local game port must be > 0", w)
    else or_fatal SessionMode.host (start_hosting_inner named net (reset_session w))

unfoldable pub stop_hosting : World → World
unfolding reset_session
stop_hosting w = set_status (push_log "Session stopped.") (reset_session w)
