-- ===== src/Examples/PortRuns.antt =====
-- Runs of the choice of LAN ports, and of the lobby's subscription.
use p2p_core.Base.{ℕ, All, List, Option, String, [], false, none, refl, ◌∷◌, ◌≡◌, ◌≤◌}
use p2p_core.Base.Words.{Bytes}
use p2p_core.Text.Utf8.{codes}
use p2p_core.Text.Numbers.{parse_uint}
use p2p_core.Lobby.{Value}
use p2p_core.Manager.Subscription.Delays.{backoff}
use p2p_core.Manager.Subscription.{
  Incoming, cancel_now, opened, interrupted, subscribe_lobby_events,
}
use p2p_core.Minecraft.Ports.{
  JavaProcessMetadata, is_local_bind_host, split_host_port_label, tcp_line, tcp_score,
}
use p2p_core.Minecraft.Ports.Listing.{LanPortDetection, detect_all_lan_ports, has_port}
use p2p_core.Minecraft.Ports.Chosen.{IsIncreasing, detect_all_lan_ports-IsIncreasing}
use p2p_core.Manager.Subscription.Delays.{delays_of, subscribe_lobby_events-delays}
use p2p_core.Net.{v4}
use p2p_core.Upnp.{Iface}

abbrev java : List (ℕ × JavaProcessMetadata)
java = (77, record { command_line = codes "java -jar server.jar"; server_port = none }) ∷ []

abbrev tcp_columns : List Bytes
tcp_columns =
    codes "TCP" ∷ codes "0.0.0.0:25565" ∷ codes "0.0.0.0:0" ∷ codes "Listening" ∷ codes "77" ∷ []

-- A server on the usual port: 150 for its words and 100 for its port, kept 500 higher.
tcp_line_found :
    tcp_line java tcp_columns
    ≡ record {
      score = 750;
      port = 25565;
      pid = 77;
      local = codes "0.0.0.0:25565";
      proto = codes "TCP";
    }
      ∷ []
unfolding tcp_line split_host_port_label is_local_bind_host parse_uint tcp_score
tcp_line_found = refl

abbrev at_port : ℕ → LanPortDetection
at_port n = record { port = n; source_path = []; source_line = [] }

detect_all_lan_ports-IsIncreasing_example :
    IsIncreasing (at_port 7551 ∷ at_port 19132 ∷ [])
    × ((p : ℕ)
        → has_port p (at_port 7551 ∷ at_port 19132 ∷ [])
          ≡ has_port p (at_port 19132 ∷ at_port 7551 ∷ at_port 19132 ∷ []))
detect_all_lan_ports-IsIncreasing_example =
    detect_all_lan_ports-IsIncreasing (at_port 19132 ∷ at_port 7551 ∷ at_port 19132 ∷ [])
      (at_port 7551 ∷ at_port 19132 ∷ []) (unfold detect_all_lan_ports in refl)

abbrev no_value : String → Option Value
no_value s = none

abbrev interruptions : List Incoming
interruptions = interrupted false ∷ interrupted false ∷ opened ∷ interrupted false ∷ cancel_now ∷ []

subscribe_lobby_events-delays_example :
    ((subscribe_lobby_events no_value "lobby:h1" interruptions).sleeps ≡ delays_of 0 interruptions)
    × All
        (λ d. (500 ≤ d) × (d ≤ 10000))
        (subscribe_lobby_events no_value "lobby:h1" interruptions).sleeps
subscribe_lobby_events-delays_example =
    subscribe_lobby_events-delays no_value "lobby:h1" interruptions

three_delays : delays_of 0 interruptions ≡ 500 ∷ 1000 ∷ 500 ∷ []
unfolding delays_of backoff
three_delays = refl

abbrev two_ifaces : List Iface
two_ifaces =
    record { name = codes "eth0"; ip = v4 10 0 0 7 }
    ∷ record { name = codes "wlan0"; ip = v4 192 168 1 5 }
    ∷ []
