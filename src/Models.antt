-- ===== src/Models.antt =====
-- src/models.rs: the status that the program shows.
use p2p_core.Base.{Bool, List, Option, String, ℕ, [], false, none}

pub data SessionMode : Type 0 where
  idle host client : SessionMode

pub data ConnectionState : Type 0 where
  idle starting waiting_for_peer punching connecting hosting connected error : ConnectionState

pub data TransportKind : Type 0 where
  unknown direct relay reverse_tunnel mesh_fallback : TransportKind

pub data LocalTargetState : Type 0 where
  unknown reachable unreachable : LocalTargetState

pub record PeerInfo : Type 0 where
  pub peer_id : String
  pub addr : String
  pub connected : Bool
  pub ping_ms : Option ℕ
  pub transport : Option String

pub record NetworkStatus : Type 0 where
  pub mode : SessionMode
  pub state : ConnectionState
  pub room_code : Option String
  pub udp_bind_addr : Option String
  pub local_udp_addr : Option String
  pub public_udp_addr : Option String
  pub public_join_address : Option String
  pub local_game_port : Option ℕ
  pub local_client_port : Option ℕ
  pub minecraft_version : Option String
  pub e4mc_domain : Option String
  pub e4mc_verified : Bool
  pub transport_kind : TransportKind
  pub local_target_state : LocalTargetState
  pub transport_path : Option String
  pub geyser_enabled : Bool
  pub bedrock_port : Option ℕ
  pub password_protected : Bool
  pub peer_count : ℕ
  pub max_players : Option ℕ
  pub peers : List PeerInfo
  pub note : Option String
  pub last_error : Option String
  pub signaling_server : String
  pub logs : List String

-- `NetworkStatus::default()`
abbrev pub default_status : NetworkStatus
default_status = record {
  mode = SessionMode.idle;
  state = ConnectionState.idle;
  room_code = none;
  udp_bind_addr = none;
  local_udp_addr = none;
  public_udp_addr = none;
  public_join_address = none;
  local_game_port = none;
  local_client_port = none;
  minecraft_version = none;
  e4mc_domain = none;
  e4mc_verified = false;
  transport_kind = TransportKind.unknown;
  local_target_state = LocalTargetState.unknown;
  transport_path = none;
  geyser_enabled = false;
  bedrock_port = none;
  password_protected = false;
  peer_count = 0;
  max_players = none;
  peers = [];
  note = none;
  last_error = none;
  signaling_server = "";
  logs = [];
}
