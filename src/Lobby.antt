-- ===== src/Lobby.antt =====
-- src/lobby.rs: the messages of the lobby's channel, and the list of rooms made of them; and what
-- `refresh_lobby` of src/manager.rs shows of it. The reader of JSON texts is a parameter.
pub mod Rooms
pub mod Published
use p2p_core.Base.{
  Bool, List, Option, String, [], false, if◌then◌else◌, keep_if, none, not, some, str_eq, true,
  ◌++◌, ◌∷◌,
}
use p2p_core.Models.{NetworkStatus, SessionMode}

-- `serde_json::Value`, a number by its text.
mutual
  pub data Value : Type 0 where
    null : Value
    boolean : Bool → Value
    number : String → Value
    text : String → Value
    array : Values → Value
    object : Fields → Value

  pub data Values : Type 0 where
    end : Values
    item : Value → Values → Values

  pub data Fields : Type 0 where
    empty : Fields
    field : String → Value → Fields → Fields

unfoldable pub get_field : String → Fields → Option Value
get_field key empty = none
get_field key (field k v fs) = if str_eq k key then some v else get_field key fs

-- `value.get(key)`
abbrev pub get : String → Value → Option Value
get key null = none
get key (boolean b) = none
get key (number n) = none
get key (text s) = none
get key (array vs) = none
get key (object fs) = get_field key fs

abbrev pub as_str : Option Value → Option String
as_str none = none
as_str (some null) = none
as_str (some (boolean b)) = none
as_str (some (number n)) = none
as_str (some (text s)) = some s
as_str (some (array vs)) = none
as_str (some (object fs)) = none

-- `obj.insert(key, value)`
unfoldable pub put_field : String → Value → Fields → Fields
put_field key v empty = field key v empty
put_field key v (field k old fs) =
    let rest = put_field key v fs in if str_eq k key then field k v fs else field k old rest

-- The object with the client's name under both keys, if the message has one.
unfoldable pub with_client : Option Value → Fields → Fields
unfolding put_field
with_client none fs = fs
with_client (some id) fs = put_field "peer_id" id (put_field "client_id" id fs)

abbrev read_parsed : Option Value → Option Value → Option Value
read_parsed client none = none
read_parsed client (some null) = none
read_parsed client (some (boolean b)) = none
read_parsed client (some (number n)) = none
read_parsed client (some (text s)) = none
read_parsed client (some (array vs)) = none
read_parsed client (some (object fs)) = some (object (with_client client fs))

-- No name, or that of a host's presence.
abbrev is_presence : Option String → Bool
is_presence none = true
is_presence (some name) = str_eq name "host-presence"

abbrev pub add_server : Option Value → List Value → List Value
add_server none servers = servers
add_server (some s) servers = s ∷ servers

module _ (from_str : String → Option Value) where
  abbrev read_data : Option Value → Option Value → Option Value
  read_data client none = none
  read_data client (some null) = none
  read_data client (some (boolean b)) = none
  read_data client (some (number n)) = none
  read_data client (some (text s)) = read_parsed client (from_str s)
  read_data client (some (array vs)) = none
  read_data client (some (object fs)) = some (object (with_client client fs))

  -- The room that a message of the channel tells of.
  unfoldable pub read_message : Value → Option Value
  unfolding get_field with_client
  read_message msg =
      if is_presence (as_str (get "name" msg))
      then read_data (get "clientId" msg) (get "data" msg)
      else none

  abbrev pub servers_of : List Value → List Value
  servers_of [] = []
  servers_of (m ∷ ms) = add_server (read_message m) (servers_of ms)

-- What the two requests come to: the list is empty unless one is answered, with success, by a list.
pub data Response : Type 0 where
  unreachable : Response
  refused : Response
  unreadable : Response
  listed : List Value → Response

abbrev pub messages_of : Response → List Value
messages_of unreachable = []
messages_of refused = []
messages_of unreadable = []
messages_of (listed vs) = vs

abbrev pub peer_id_of : Value → Option String
peer_id_of v = as_str (get "peer_id" v)

abbrev pub has_server : String → List (String × Value) → Bool
has_server id [] = false
has_server id ((k, v) ∷ rooms) = if str_eq k id then true else has_server id rooms

-- `entry(peer_id).or_insert(server)`: the first server of a name stays.
abbrev pub enter_server : Option String → Value → List (String × Value) → List (String × Value)
enter_server none v rooms = rooms
enter_server (some id) v rooms = if has_server id rooms then rooms else rooms ++ ((id, v) ∷ [])

unfoldable pub unique_servers : List (String × Value) → List Value → List (String × Value)
unique_servers rooms [] = rooms
unique_servers rooms (v ∷ vs) = unique_servers (enter_server (peer_id_of v) v rooms) vs

-- `fetch_presence`: the rooms under the names of their hosts. The map of the code gives its values in
-- no particular order; here they stand in the order of their arrival.
unfoldable pub fetch_presence :
    (String → Option Value) → Response → Response → List (String × Value)
unfolding unique_servers read_message
fetch_presence from_str presence messages =
    unique_servers [] (servers_of from_str (messages_of presence ++ messages_of messages))

-- What `enter_presence` and `leave_presence` publish.
unfoldable pub enter_message : String → Value → Value
enter_message client_id room = object (
    field "name" (text "host-presence")
      (field "clientId" (text client_id) (field "data" room empty)))

unfoldable pub leave_message : String → Value
leave_message client_id = object (
    field "name" (text "host-leave")
      (field "clientId" (text client_id) (field "data" (object empty) empty)))

-- `refresh_lobby`: a host leaves out what has its room's code for a client.
abbrev pub own_room : SessionMode → Option String → Option String
own_room SessionMode.host code = code
own_room SessionMode.idle code = none
own_room SessionMode.client code = none

abbrev pub other_than : String → Option String → Option String → Bool
other_than own none none = true
other_than own none (some peer_id) = not (str_eq peer_id own)
other_than own (some client_id) peer = not (str_eq client_id own)

abbrev pub is_other : String → Value → Bool
is_other own v = other_than own (as_str (get "client_id" v)) (as_str (get "peer_id" v))

abbrev pub keep_others : Option String → List Value → List Value
keep_others none vs = vs
keep_others (some own) vs = keep_if (is_other own) vs

unfoldable pub refresh_lobby : NetworkStatus → List Value → List Value
unfolding get_field
refresh_lobby s presence = keep_others (own_room s.mode s.room_code) presence
