-- ===== src/Lobby/Published.antt =====
-- src/lobby.rs: the room that a host publishes, and what a host sees of the list.
use p2p_core.Base.{
  Bool, Bool-cases, List, Option, String, [], ap, append_assoc, eq_iff, false, inl, inr, keep_if,
  none, refl, some, str_eq, sym, true, ◌++◌, ◌∙◌, ◌∷◌, ◌≡◌,
}
use p2p_core.Models.{NetworkStatus, SessionMode}
use p2p_core.Lobby.{
  Value, Fields, text, object, field, empty, listed, Response, fetch_presence, messages_of,
  servers_of, enter_message, get_field, is_other, put_field, refresh_lobby, with_client, add_server,
  peer_id_of,
}
use p2p_core.Lobby.Rooms.{
  is_name, same_name, first_of, room_of, servers_of-append, read_message-enter_message,
  fetch_presence-first,
}

pub get_field-put_field :
    (key : String) (v : Value) (fs : Fields) → get_field key (put_field key v fs) ≡ some v
unfolding get_field put_field
get_field-put_field key v empty = rw ((eq_iff key key).1 refl) refl
get_field-put_field key v (field k old fs) = elim (Bool-cases (str_eq k key)) [
  | inl e ↦ rw (e, e) refl
  | inr e ↦ rw (e, e) (get_field-put_field key v fs)
]

first_of-append :
    (id : String) (vs ws : List Value)
    → first_of id vs ≡ none
    → first_of id (vs ++ ws) ≡ first_of id ws
unfolding first_of
first_of-append id [] ws h = refl
first_of-append id (v ∷ vs) ws h = elim (Bool-cases (is_name (peer_id_of v) id)) [
  | inl e ↦ let no : some v ≡ none = rw e at h in cc no
  | inr e ↦ rw e (first_of-append id vs ws (rw e at h))
]

published_name :
    (id : String) (room : Fields)
    → is_name (peer_id_of (object (with_client (some (text id)) room))) id ≡ true
unfolding with_client
published_name id room =
    rw (get_field-put_field "peer_id" (text id) (put_field "client_id" (text id) room))
      (unfold is_name in (eq_iff id id).1 refl)

module _ (from_str : String → Option Value) where
  -- A room that a host publishes is listed under the host's name, with that name for its client and its peer, if no earlier message tells of a room of that name.
  pub fetch_presence-enter_message :
      (presence : Response) (before after : List Value) (id : String) (room : Fields)
      → first_of id (servers_of from_str (messages_of presence ++ before)) ≡ none
      → room_of id (
          fetch_presence from_str presence
            (listed (before ++ (enter_message id (object room) ∷ after))))
        ≡ some (object (with_client (some (text id)) room))
  fetch_presence-enter_message presence before after id room h =
      let ms = messages_of presence in
      let rest = enter_message id (object room) ∷ after in
      let published = object (with_client (some (text id)) room) in
      let read : servers_of from_str rest ≡ published ∷ servers_of from_str after =
        ap (λ o. add_server o (servers_of from_str after))
          (read_message-enter_message from_str id room) in
      let split_there =
        ap (servers_of from_str) (sym (append_assoc ms before rest))
        ∙ servers_of-append from_str (ms ++ before) rest in
      (fetch_presence-first from_str presence (listed (before ++ rest)) id).1
      ∙ ap (first_of id) split_there
      ∙ first_of-append id (servers_of from_str (ms ++ before)) (servers_of from_str rest) h
      ∙ ap (first_of id) read
      ∙ (unfold first_of in rw (published_name id room) refl)

keep_if-append :
    (p : Value → Bool) (xs : List Value) (v : Value) (ys : List Value)
    → p v ≡ true
    → keep_if p (xs ++ (v ∷ ys)) ≡ keep_if p xs ++ (v ∷ keep_if p ys)
keep_if-append p [] v ys h = rw h refl
keep_if-append p (x ∷ xs) v ys h = elim (Bool-cases (p x)) [
  | inl e ↦ rw e (ap (λ t. x ∷ t) (keep_if-append p xs v ys h))
  | inr e ↦ rw e (keep_if-append p xs v ys h)
]

pub get_field-put_field_other :
    (key other : String) (v : Value) (fs : Fields)
    → str_eq key other ≡ false
    → get_field other (put_field key v fs) ≡ get_field other fs
unfolding get_field put_field
get_field-put_field_other key other v empty h = rw h refl
get_field-put_field_other key other v (field k old fs) h = elim (Bool-cases (str_eq k key)) [
  | inl e ↦ let passed : str_eq k other ≡ false = rw (same_name k key e) h in rw (e, passed) refl
  | inr e ↦ elim (Bool-cases (str_eq k other)) [
    | inl same ↦ rw (e, same) refl
    | inr apart_ ↦ rw (e, apart_) (get_field-put_field_other key other v fs h)
  ]
]

client_name :
    (id : String) (room : Fields)
    → get_field "client_id" (with_client (some (text id)) room) ≡ some (text id)
unfolding with_client
client_name id room =
    get_field-put_field_other "peer_id" "client_id" (text id) (put_field "client_id" (text id) room)
      refl
    ∙ get_field-put_field "client_id" (text id) room

-- A host whose room's name is not its own identifier is shown its own room.
pub refresh_lobby-own_room :
    (s : NetworkStatus) (before after : List Value) (id code : String) (room : Fields)
    → s.mode ≡ SessionMode.host
    → s.room_code ≡ some code
    → str_eq id code ≡ false
    → refresh_lobby s (before ++ (object (with_client (some (text id)) room) ∷ after))
      ≡ refresh_lobby s before
        ++ (object (with_client (some (text id)) room) ∷ refresh_lobby s after)
unfolding refresh_lobby
refresh_lobby-own_room s before after id code room hosting named other =
    let own = object (with_client (some (text id)) room) in
    let kept : is_other code own ≡ true = rw (client_name id room, other) refl in
    rw (hosting, named) (keep_if-append (is_other code) before own after kept)
