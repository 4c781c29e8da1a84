-- ===== src/Manager/Presence/Published.antt =====
-- The room that a host publishes stands in the list of the lobby, with what its probe found.
use p2p_core.Base.{
  [], length, ap, arith, ℕ, Bool-cases, List, Option, Option-cases, String, false, inl, inr, none,
  refl, some, str_eq, ◌++◌, ◌∙◌, ◌∷◌, ◌≡◌,
}
use p2p_core.Text.{show_nat}
use p2p_core.Models.{NetworkStatus}
use p2p_core.Lobby.{
  Value, Fields, Response, listed, text, number, object, get_field, put_field, enter_message,
  with_client, fetch_presence, servers_of, messages_of,
}
use p2p_core.Lobby.Rooms.{first_of, room_of}
use p2p_core.Lobby.Published.{
  get_field-put_field, get_field-put_field_other, fetch_presence-enter_message,
}
use p2p_core.Manager.Presence.{
  HostRoom, RoomProbe, Tick, presence_data, host_lobby_loop, with_public, with_local, with_version,
  with_motd, base_data, or_text, probed_status,
}

module _ (key : String) where
  -- Fields under other names do not matter.
  with_public-keeps :
      (o : Option String) (fs : Fields)
      → str_eq "endpoint" key ≡ false
      → str_eq "public_join_address" key ≡ false
      → get_field key (with_public o fs) ≡ get_field key fs
  with_public-keeps none fs h k = refl
  with_public-keeps (some addr) fs h k =
      get_field-put_field_other "endpoint" key (text addr)
        (put_field "public_join_address" (text addr) fs) h
      ∙ get_field-put_field_other "public_join_address" key (text addr) fs k

  with_local-keeps :
      (split_comma : String → List String) (o : Option String) (fs : Fields)
      → str_eq "local_ip" key ≡ false
      → str_eq "listen_addrs" key ≡ false
      → get_field key (with_local split_comma o fs) ≡ get_field key fs
  with_local-keeps split_comma none fs h k = refl
  with_local-keeps split_comma (some addr) fs h k =
      get_field-put_field_other "local_ip" key _ _ h
      ∙ get_field-put_field_other "listen_addrs" key _ fs k

  with_version-keeps :
      (o : Option String) (fs : Fields)
      → str_eq "game_version" key ≡ false
      → get_field key (with_version o fs) ≡ get_field key fs
  with_version-keeps none fs h = refl
  with_version-keeps (some v) fs h = get_field-put_field_other "game_version" key (text v) fs h

  with_motd-keeps :
      (name : String) (fs : Fields)
      → str_eq "motd" key ≡ false
      → get_field key (with_motd name fs) ≡ get_field key fs
  with_motd-keeps name fs h = elim (Bool-cases (str_eq name "")) [
    | inl e ↦ rw e refl
    | inr e ↦ rw e (get_field-put_field_other "motd" key (text name) fs h)
  ]

  with_client-keeps :
      (id : Value) (fs : Fields)
      → str_eq "peer_id" key ≡ false
      → str_eq "client_id" key ≡ false
      → get_field key (with_client (some id) fs) ≡ get_field key fs
  unfolding with_client
  with_client-keeps id fs h k =
      get_field-put_field_other "peer_id" key id (put_field "client_id" id fs) h
      ∙ get_field-put_field_other "client_id" key id fs k

  addresses-keep :
      (split_comma : String → List String) (r : HostRoom) (fs : Fields)
      → (str_eq "endpoint" key ≡ false)
        × (str_eq "public_join_address" key ≡ false)
        × (str_eq "local_ip" key ≡ false)
        × (str_eq "listen_addrs" key ≡ false)
      → get_field key (with_local split_comma r.local_udp_addr (with_public r.public_udp_addr fs))
        ≡ get_field key fs
  addresses-keep split_comma r fs h =
      with_local-keeps split_comma r.local_udp_addr (with_public r.public_udp_addr fs) h.2 h.3
      ∙ with_public-keeps r.public_udp_addr fs h.0 h.1

-- What the list should show: the numbers of the probe or 0, and its version or the one given before.
abbrev pub shown_online : Option RoomProbe → ℕ
shown_online none = 0
shown_online (some p) = p.online_players

abbrev pub shown_max : Option RoomProbe → ℕ
shown_max none = 0
shown_max (some p) = p.max_players

abbrev pub shown_version : Option RoomProbe → HostRoom → String
shown_version none r = or_text r.fallback_version "Unknown"
shown_version (some p) r = or_text p.version (or_text r.fallback_version "Unknown")

module _ (split_comma : String → List String) (r : HostRoom) (nick : Option String) where
  -- The fields before those of a probe, and then each of its fields in turn.
  abbrev with_addresses : Fields
  with_addresses =
      with_local split_comma r.local_udp_addr (with_public r.public_udp_addr (base_data r nick))

  abbrev with_slots : RoomProbe → Fields
  with_slots p =
      put_field "slots" (number (show_nat p.online_players)) (with_motd p.room_name with_addresses)

  abbrev with_max : RoomProbe → Fields
  with_max p = put_field "maxPlayers" (number (show_nat p.max_players)) (with_slots p)

  online-field :
      (probe : Option RoomProbe)
      → get_field "slots" (presence_data split_comma r (record { probe = probe; nickname = nick }))
        ≡ some (number (show_nat (shown_online probe)))
  unfolding presence_data
  online-field none =
      addresses-keep "slots" split_comma r (base_data r nick) (refl, refl, refl, refl)
      ∙ (unfold get_field show_nat in refl)
  online-field (some p) =
      with_version-keeps "slots" p.version (with_max p) refl
      ∙ get_field-put_field_other "maxPlayers" "slots" (number (show_nat p.max_players))
          (with_slots p) refl
      ∙ get_field-put_field "slots" (number (show_nat p.online_players))
          (with_motd p.room_name with_addresses)

  max-field :
      (probe : Option RoomProbe)
      → get_field "maxPlayers"
          (presence_data split_comma r (record { probe = probe; nickname = nick }))
        ≡ some (number (show_nat (shown_max probe)))
  unfolding presence_data
  max-field none =
      addresses-keep "maxPlayers" split_comma r (base_data r nick) (refl, refl, refl, refl)
      ∙ (unfold get_field show_nat in refl)
  max-field (some p) =
      with_version-keeps "maxPlayers" p.version (with_max p) refl
      ∙ get_field-put_field "maxPlayers" (number (show_nat p.max_players)) (with_slots p)

  before_version :
      (p : RoomProbe)
      → get_field "game_version" (with_max p) ≡ some (text (or_text r.fallback_version "Unknown"))
  before_version p =
      get_field-put_field_other "maxPlayers" "game_version" (number (show_nat p.max_players))
        (with_slots p) refl
      ∙ get_field-put_field_other "slots" "game_version" (number (show_nat p.online_players))
          (with_motd p.room_name with_addresses) refl
      ∙ with_motd-keeps "game_version" p.room_name with_addresses refl
      ∙ addresses-keep "game_version" split_comma r (base_data r nick) (refl, refl, refl, refl)
      ∙ (unfold get_field in refl)

  version-field :
      (probe : Option RoomProbe)
      → get_field "game_version"
          (presence_data split_comma r (record { probe = probe; nickname = nick }))
        ≡ some (text (shown_version probe r))
  unfolding presence_data
  version-field none =
      addresses-keep "game_version" split_comma r (base_data r nick) (refl, refl, refl, refl)
      ∙ (unfold get_field in refl)
  version-field (some p) = elim (Option-cases p.version) [
    | inl e ↦ rw e (before_version p)
    | inr (v, e) ↦ rw e (get_field-put_field "game_version" (text v) (with_max p))
  ]

-- The message of each tick, after as many messages as there are ticks before it.
host_lobby_loop-message :
    (split_comma : String → List String) (r : HostRoom) (ts us : List Tick) (t : Tick)
    (s : NetworkStatus)
    → (front : List Value) × (back : List Value) × ((host_lobby_loop split_comma r
          (ts ++ (t ∷ us))
          s).0
        ≡ front ++ (enter_message r.peer_id (object (presence_data split_comma r t)) ∷ back))
      × (length front ≡ length ts)
unfolding host_lobby_loop
host_lobby_loop-message split_comma r [] us t s = ([], _, refl, refl)
host_lobby_loop-message split_comma r (x ∷ ts) us t s =
    let (front, back, e, l) =
      host_lobby_loop-message split_comma r ts us t (probed_status x.probe s) in
    (
      enter_message r.peer_id (object (presence_data split_comma r x)) ∷ front,
      back,
      ap (λ ms. enter_message r.peer_id (object (presence_data split_comma r x)) ∷ ms) e,
      omega (arith, l),
    )

-- At each tick a host's task publishes one message. In whatever order the service returns the
-- messages, where that of a tick stands before any other room of that host, the lobby lists the room
-- under the host's name, with the players and the version that the probe of that tick found, and
-- without a probe with no players and the version given before.
pub host_lobby_loop-listed :
    (split_comma : String → List String) (from_str : String → Option Value) (presence : Response)
    (before after : List Value) (r : HostRoom) (ts us : List Tick) (t : Tick) (s : NetworkStatus)
    → first_of r.peer_id (servers_of from_str (messages_of presence ++ before)) ≡ none
    → (front : List Value) × (message : Value) × (back : List Value) × ((host_lobby_loop split_comma
          r
          (ts ++ (t ∷ us))
          s).0
        ≡ front ++ (message ∷ back))
      × (length front ≡ length ts)
      × (fs : Fields) × (room_of r.peer_id
            (fetch_presence from_str presence (listed (before ++ (message ∷ after))))
          ≡ some (object fs))
      × (get_field "slots" fs ≡ some (number (show_nat (shown_online t.probe))))
      × (get_field "maxPlayers" fs ≡ some (number (show_nat (shown_max t.probe))))
      × (get_field "game_version" fs ≡ some (text (shown_version t.probe r)))
host_lobby_loop-listed split_comma from_str presence before after r ts us t s h =
    let room = presence_data split_comma r t in
    let id = text r.peer_id in
    let (front, back, e, l) = host_lobby_loop-message split_comma r ts us t s in
    (
      front,
      enter_message r.peer_id (object room),
      back,
      e,
      l,
      with_client (some id) room,
      fetch_presence-enter_message from_str presence before after r.peer_id room h,
      with_client-keeps "slots" id room refl refl ∙ online-field split_comma r t.nickname t.probe,
      with_client-keeps "maxPlayers" id room refl refl ∙ max-field split_comma r t.nickname t.probe,
      with_client-keeps "game_version" id room refl refl
          ∙ version-field split_comma r t.nickname t.probe,
    )
