-- ===== src/Minecraft/Players.antt =====
-- src/minecraft.rs: the description and the players of a status response, the probe of a server by
-- three protocols, and the snapshot of the local players.
use p2p_core.Base.{
  ℕ, Bool, List, Option, Outcome, String, [], false, if◌then◌else◌, none, ok, some, str_eq, true,
  ◌>>=◌, ◌||◌, ◌∷◌,
}
use p2p_core.Base.Words.{Bytes}
use p2p_core.Text.{trim, join}
use p2p_core.Text.Chars.{Chars}
use p2p_core.Text.Utf8.{codes}
use p2p_core.Text.Utf8.Encode.{utf8}
use p2p_core.Discovery.{ServerInfo}
use p2p_core.Lobby.{Value, Values, Fields, as_str, get_field}
use p2p_core.Minecraft.Nickname.{and_then, or_other, sanitize_minecraft_nickname}
use p2p_core.Minecraft.Probe.{
  ExternalServerProbe, QueryError, try_candidates, status_protocol_candidates,
}

pub record MinecraftPlayers : Type 0 where
  pub online : ℕ
  pub max : ℕ
  pub sample : List String

pub record StatusResponse : Type 0 where
  pub version_name : String
  pub players : Option MinecraftPlayers
  pub description : Value

abbrev non_empty : String → Option String
non_empty s = if str_eq s "" then none else some s

abbrev keep_some : Option String → List String → List String
keep_some none ss = ss
keep_some (some s) ss = s ∷ ss

-- `status_description_to_string`. Of an object, the text of its field `text` counts if it is not blank,
-- and otherwise the parts of its field `extra`.
unfoldable mutual
  pub describe : Value → Option String
  describe Value.null = none
  describe (Value.boolean b) = none
  describe (Value.number n) = none
  describe (Value.text s) = some (trim s)
  describe (Value.array vs) = none
  describe (Value.object fs) =
      or_other (and_then (as_str (get_field "text" fs)) (λ s. non_empty (trim s)))
        (describe_extra fs)

  pub describe_items : Values → List String
  describe_items Values.end = []
  describe_items (Values.item v vs) = keep_some (describe v) (describe_items vs)

  pub describe_array : Value → Option String
  describe_array Value.null = none
  describe_array (Value.boolean b) = none
  describe_array (Value.number n) = none
  describe_array (Value.text s) = none
  describe_array (Value.array vs) = non_empty (trim (join " " (describe_items vs)))
  describe_array (Value.object fs) = none

  pub describe_extra : Fields → Option String
  describe_extra Fields.empty = none
  describe_extra (Fields.field k v fs) =
      if str_eq k "extra" then describe_array v else describe_extra fs

-- The bytes of a text.
abbrev text_utf8 : String → Bytes
text_utf8 s = utf8 (codes s)

abbrev online_of : Option MinecraftPlayers → ℕ
online_of none = 0
online_of (some p) = p.online

abbrev max_of : Option MinecraftPlayers → ℕ
max_of none = 0
max_of (some p) = p.max

abbrev sample_of : Option MinecraftPlayers → List String
sample_of none = []
sample_of (some p) = p.sample

abbrev bytes_or : Option String → String → Bytes
bytes_or none default = text_utf8 default
bytes_or (some s) default = text_utf8 s

abbrev java_probe : String → StatusResponse → ExternalServerProbe
java_probe host r = record {
  room_name = bytes_or (describe r.description) host;
  host_name = text_utf8 host;
  version = some (text_utf8 r.version_name);
  online_players = online_of r.players;
  max_players = max_of r.players;
}

abbrev lan_probe : ServerInfo → ExternalServerProbe
lan_probe info = record {
  room_name = info.name;
  host_name = info.host_name;
  version = some info.mc_version;
  online_players = info.players;
  max_players = info.max_players;
}

unfoldable pub is_local_host : String → Bool
is_local_host host = str_eq host "127.0.0.1" || str_eq host "localhost" || str_eq host "::1"

abbrev found_locally : Bool → Option ServerInfo → Option ExternalServerProbe
found_locally false info = none
found_locally true info = and_then info (λ i. some (lan_probe i))

abbrev first_probe :
    Option ExternalServerProbe
    → Outcome QueryError ExternalServerProbe
    → Outcome QueryError ExternalServerProbe
first_probe none other = other
first_probe (some p) other = ok p

module _ (from_slice : Bytes → Option StatusResponse) where
  -- The discovery, for a local host alone, then the ping of Bedrock, then the status queries. The time
  -- that the answer took is left out.
  unfoldable pub probe_external_server :
      String
      → Option ServerInfo
      → Option ExternalServerProbe
      → (ℕ → Outcome QueryError Bytes)
      → Outcome QueryError ExternalServerProbe
  unfolding describe is_local_host
  probe_external_server host discovered bedrock net =
      first_probe (found_locally (is_local_host host) discovered) (
        first_probe bedrock (
          try_candidates from_slice net QueryError.unreachable
            (status_protocol_candidates from_slice)
          >>= (λ r. ok (java_probe host r))))

pub record LocalPlayerSnapshot : Type 0 where
  pub online_players : ℕ
  pub max_players : ℕ
  pub sample_names : List Chars

abbrev keep_names : List String → List Chars
keep_names [] = []
keep_names (s ∷ ss) = elim (sanitize_minecraft_nickname (codes s)) [
  | none ↦ keep_names ss
  | some n ↦ n ∷ keep_names ss
]

-- By what `detect_status_response` gives; an error is a snapshot without players.
unfoldable pub read_local_player_snapshot : Option StatusResponse → LocalPlayerSnapshot
unfolding sanitize_minecraft_nickname
read_local_player_snapshot none = record { online_players = 0; max_players = 0; sample_names = [] }
read_local_player_snapshot (some r) = record {
  online_players = online_of r.players;
  max_players = max_of r.players;
  sample_names = keep_names (sample_of r.players);
}
