-- ===== src/Minecraft/Preflight.antt =====
-- src/minecraft.rs: the report before hosting, and the ports offered. What the system and the local
-- server give is an argument.
pub mod Reachable
use p2p_core.Base.{
  ℕ, Bool, List, Option, String, [], any, false, if◌then◌else◌, keep_if, map, none, not, some, true,
  ◌==◌, ◌||◌, ◌∷◌,
}
use p2p_core.Models.{LocalTargetState}
use p2p_core.Text.{◌⧺◌}
use p2p_core.Text.Search.{contains}
use p2p_core.Text.Utf8.{codes}
use p2p_core.Manager.Sessions.{Result, done, failed}
use p2p_core.Minecraft.Ports.{lower}
use p2p_core.Minecraft.Ports.Listing.{LanPortDetection}

pub record PreflightReport : Type 0 where
  pub local_port : ℕ
  pub reachable : Bool
  pub state : LocalTargetState
  pub minecraft_version : Option String
  pub recommended_host_action : String
  pub note : Option String
  pub detected_lan_port : Option ℕ

-- `.find(|l| l.source_line.contains("UDP")).map(|l| l.port)`
abbrev pub first_udp : List LanPortDetection → Option ℕ
first_udp [] = none
first_udp (l ∷ ls) = if contains (codes "UDP") l.source_line then some l.port else first_udp ls

abbrev pub listens_on : ℕ → List LanPortDetection → Bool
listens_on port ls = any (λ l. l.port == port) ls

abbrev listed_ports : Option (List LanPortDetection) → List LanPortDetection
listed_ports none = []
listed_ports (some ls) = ls

-- Whether the version names a server that takes plugins for skins.
unfoldable pub is_plugin_server : String → Bool
is_plugin_server version =
    contains (codes "paper") (map lower (codes version))
    || contains (codes "purpur") (map lower (codes version))
    || contains (codes "spigot") (map lower (codes version))

abbrev open_note : String
open_note = "The world is already open to LAN or the local server is accepting connections."

abbrev version_note : String → String
version_note version =
    if is_plugin_server version
    then open_note
      ⧺ "\n\nTips: Detected a Paper/Purpur/Spigot server. For skin support, consider installing the SkinsRestorer plugin."
    else open_note

abbrev with_version : ℕ → Option ℕ → Result String → PreflightReport
with_version port lan (done version) = record {
  local_port = port;
  reachable = true;
  state = LocalTargetState.reachable;
  minecraft_version = some version;
  recommended_host_action =
      "Local Minecraft is reachable. You can launch the host and publish the room.";
  note = some (version_note version);
  detected_lan_port = lan;
}
with_version port lan (failed e) = record {
  local_port = port;
  reachable = true;
  state = LocalTargetState.reachable;
  minecraft_version = none;
  recommended_host_action =
      "The TCP port is reachable, but Minecraft version detection failed. You can still launch the host.";
  note = some ("Version detection failed during status ping: " ⧺ e);
  detected_lan_port = lan;
}

abbrev without_tcp : ℕ → Option ℕ → Bool → String → PreflightReport
without_tcp port lan true e = record {
  local_port = port;
  reachable = true;
  state = LocalTargetState.reachable;
  minecraft_version = some "Detected (UDP/Bedrock)";
  recommended_host_action =
      "Local Minecraft was detected via system listeners. You can launch the host.";
  note = some ("TCP reachability failed, but port is open in netstat: " ⧺ e);
  detected_lan_port = lan;
}
without_tcp port lan false e = record {
  local_port = port;
  reachable = false;
  state = LocalTargetState.unreachable;
  minecraft_version = none;
  recommended_host_action =
      "Open the world to LAN or start the local Minecraft server, then try hosting again.";
  note = some ("Local TCP reachability check failed and port not found in netstat: " ⧺ e);
  detected_lan_port = lan;
}

-- The listeners are listed twice; a listing is `none` where its task fails.
unfoldable pub build_preflight_report :
    ℕ
    → Option (List LanPortDetection)
    → Result (Unit {0})
    → Option (List LanPortDetection)
    → Result String
    → PreflightReport
unfolding is_plugin_server
build_preflight_report port first (failed e) second version =
    without_tcp port (first_udp (listed_ports first)) (listens_on port (listed_ports second)) e
build_preflight_report port first (done u) second version =
    with_version port (first_udp (listed_ports first)) version

abbrev is_ignored : List ℕ → ℕ → Bool
is_ignored ports port = any (λ p. p == port) ports

-- The detected ports without those that are ignored.
unfoldable pub get_available_lan_ports : List ℕ → List LanPortDetection → List LanPortDetection
get_available_lan_ports ignored detected = keep_if (λ d. not (is_ignored ignored d.port)) detected
