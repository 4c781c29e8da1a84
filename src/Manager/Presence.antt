-- ===== src/Manager/Presence.antt =====
-- src/manager.rs: the task of a host that publishes its room every ten seconds. What the probe of the
-- local server and the detection of the player's name give is an argument.
pub mod Published
use p2p_core.Base.{ℕ, Bool, List, Option, String, [], if◌then◌else◌, none, some, str_eq, ◌∷◌}
use p2p_core.Text.{show_nat}
use p2p_core.Models.{NetworkStatus}
use p2p_core.Manager.{mutate_status, or_else}
use p2p_core.Lobby.{
  Value, Values, Fields, text, number, boolean, array, object, item, end, put_field, enter_message,
}

-- An `ExternalServerProbe`, with the texts as JSON carries them.
pub record RoomProbe : Type 0 where
  pub room_name : String
  pub version : Option String
  pub online_players : ℕ
  pub max_players : ℕ

-- What the task is started with.
pub record HostRoom : Type 0 where
  pub peer_id : String
  pub room_name : String
  pub fallback_version : Option String
  pub has_password : Bool
  pub public_udp_addr : Option String
  pub local_udp_addr : Option String

abbrev pub or_text : Option String → String → String
or_text none default = default
or_text (some s) default = s

abbrev pub texts : List String → Values
texts [] = end
texts (s ∷ ss) = item (text s) (texts ss)

abbrev pub base_data : HostRoom → Option String → Fields
base_data r nick = Fields.field "peer_id" (text r.peer_id) (
    Fields.field "id" (text r.peer_id) (
      Fields.field "room_name" (text r.room_name) (
        Fields.field "host_name" (text (or_text nick "Minecraft Host")) (
          Fields.field "slots" (number "0") (
            Fields.field "maxPlayers" (number "0") (
              Fields.field "motd" (text r.room_name) (
                Fields.field "has_password" (boolean r.has_password) (
                  Fields.field "game_version" (text (or_text r.fallback_version "Unknown")) (
                    Fields.field "platform" (text "desktop") (
                      Fields.field "protocol_version" (number "0")
                        (Fields.field "game_type" (text "survival") Fields.empty)))))))))))

abbrev pub with_public : Option String → Fields → Fields
with_public none fs = fs
with_public (some addr) fs =
    put_field "endpoint" (text addr) (put_field "public_join_address" (text addr) fs)

-- The parts of the local address, which has one for each interface.
abbrev pub with_local : (String → List String) → Option String → Fields → Fields
with_local split_comma none fs = fs
with_local split_comma (some addr) fs =
    put_field "local_ip" (text addr)
      (put_field "listen_addrs" (array (texts (split_comma addr))) fs)

abbrev pub with_version : Option String → Fields → Fields
with_version none fs = fs
with_version (some v) fs = put_field "game_version" (text v) fs

abbrev pub with_motd : String → Fields → Fields
with_motd name fs = if str_eq name "" then fs else put_field "motd" (text name) fs

abbrev pub with_probe : Option RoomProbe → Fields → Fields
with_probe none fs = fs
with_probe (some p) fs = with_version p.version (
    put_field "maxPlayers" (number (show_nat p.max_players))
      (put_field "slots" (number (show_nat p.online_players)) (with_motd p.room_name fs)))

-- The change of the status that a tick spawns.
unfoldable pub probed_status : Option RoomProbe → NetworkStatus → NetworkStatus
probed_status none s = s
probed_status (some p) s =
    mutate_status
      (λ t. record t {
        max_players = some p.max_players;
        minecraft_version = or_else p.version t.minecraft_version;
      })
      s

-- What one tick finds.
pub record Tick : Type 0 where
  pub probe : Option RoomProbe
  pub nickname : Option String

module _ (split_comma : String → List String) where
  unfoldable pub presence_data : HostRoom → Tick → Fields
  unfolding put_field show_nat
  presence_data r t = with_probe t.probe (
      with_local split_comma r.local_udp_addr
        (with_public r.public_udp_addr (base_data r t.nickname)))

  -- The ticks before the token is cancelled: the messages that are published, and the status. Each
  -- change of the status is a task of its own and is taken here at its tick.
  unfoldable pub host_lobby_loop : HostRoom → List Tick → NetworkStatus → List Value × NetworkStatus
  unfolding presence_data probed_status enter_message
  host_lobby_loop r [] s = ([], s)
  host_lobby_loop r (t ∷ ts) s =
      let (messages, final) = host_lobby_loop r ts (probed_status t.probe s) in
      (enter_message r.peer_id (object (presence_data r t)) ∷ messages, final)
