-- ===== src/Manager/Sessions/Owned/Runs.antt =====
-- src/manager.rs: the commands that the program gives to its manager, one after the other, and what
-- is left of them when the session is stopped.
use p2p_core.Base.{List, Option, String, [], none, ◌∷◌, some}
use p2p_core.Net.{SocketAddr}
use p2p_core.Models.{default_status}
use p2p_core.Manager.Sessions.{SessionRuntime, World}
use p2p_core.Manager.Sessions.Joining.{ClientNet}
use p2p_core.Manager.Sessions.Hosting.{HostArgs, HostNet, start_hosting, stop_hosting}
use p2p_core.Manager.Sessions.Commands.{
  Names, commit_prepared_client_connect, connect_to_peer, prepare_client_connect,
}
use p2p_core.Manager.Sessions.Owned.{live_of}
use p2p_core.Manager.Sessions.Relays.{HostStep, on_host}
use p2p_core.Manager.Sessions.Owned.Steps.{StartsRelay}
use p2p_core.Manager.Host.{Connection}
use mathlib.Core.List.{Memᴰ}
use mathlib.Core.List.Memᴰ
use p2p_core.Manager.Sessions.Owned.Kept.{StartsE4mc}

-- `NetworkManager::new`
abbrev pub new_manager : World
new_manager = record {
  session = none;
  status = record default_status {
    signaling_server = "mcp2p-lobby";
    logs = "Minecraft P2P Connector started." ∷ [];
  };
  fresh = 0;
  tasks = [];
  tokens = [];
  effects = [];
  left = [];
}

pub data Command : Type 0 where
  host_room : HostArgs → HostNet → Command
  stop : Command
  connect : String → Option String → Option String → ClientNet → Command
  prepare : String → Names → ClientNet → Command
  commit : Command
  host_task : HostStep → Command

-- A host that starts e4mc gets its socket and its endpoint, and a relay that is started has a start
-- that succeeds.
abbrev pub Starts : Command → Type 0
Starts (host_room a net) = StartsE4mc a net
Starts stop = Unit {0}
Starts (connect text peer_id relay net) = Unit {0}
Starts (prepare text names net) = Unit {0}
Starts commit = Unit {0}
Starts (host_task s) = StartsRelay s

abbrev pub connections : List (String × Connection) → List Connection
connections [] = []
connections ((id, conn) ∷ live) = conn ∷ connections live

-- The connections in the map of the host, where the session is a host's.
abbrev pub open_connections : Option SessionRuntime → List Connection
open_connections none = []
open_connections (some r) = connections (live_of r.control)

module _ (parse_addr : String → Option SocketAddr) where
  abbrev pub command : Command → World → World
  command (host_room a net) w = (start_hosting a net w).1
  command stop w = stop_hosting w
  command (connect text peer_id relay net) w =
      (connect_to_peer parse_addr text peer_id relay net w).1
  command (prepare text names net) w = (prepare_client_connect parse_addr text names net w).1
  command commit w = (commit_prepared_client_connect w).1
  command (host_task s) w = on_host s w.session w

  abbrev pub commands : List Command → World → World
  commands [] w = w
  commands (c ∷ cs) w = commands cs (command c w)
