-- ===== src/Lobby/Rooms.antt =====
-- src/lobby.rs: which rooms are listed.
use p2p_core.Lobby.{add_server}
use p2p_core.Base.{
  str_eq, eq_iff, Bool, Bool-cases, List, Option, String, [], false, if◌then◌else◌, inl, inr, none,
  refl, some, true, ◌++◌, ◌∷◌, ◌≡◌, ap, sym, ◌∙◌,
}
use p2p_core.Lobby.{
  Value, text, object, Fields, listed, enter_server, has_server, peer_id_of, Response,
  fetch_presence, messages_of, servers_of, unique_servers, enter_message, leave_message,
  read_message, with_client,
}

-- The first server of a name, looked for in the order of arrival.
unfoldable pub is_name : Option String → String → Bool
is_name none id = false
is_name (some k) id = str_eq k id

unfoldable pub first_of : String → List Value → Option Value
unfolding is_name
first_of id [] = none
first_of id (v ∷ vs) =
    let rest = first_of id vs in if is_name (peer_id_of v) id then some v else rest

unfoldable pub room_of : String → List (String × Value) → Option Value
room_of id [] = none
room_of id ((k, v) ∷ rooms) = let rest = room_of id rooms in if str_eq k id then some v else rest

or_first : Option Value → Option Value → Option Value
or_first none b = b
or_first (some a) b = some a

pub same_name : (k id : String) → str_eq k id ≡ true → k ≡ id
same_name k id h = (eq_iff k id).0 h

room_of-append :
    (id k : String) (v : Value) (rooms : List (String × Value))
    → room_of id (rooms ++ ((k, v) ∷ []))
      ≡ or_first (room_of id rooms) (if str_eq k id then some v else none)
unfolding room_of or_first
room_of-append id k v [] = refl
room_of-append id k v ((j, u) ∷ rooms) = elim (Bool-cases (str_eq j id)) [
  | inl e ↦ rw e refl
  | inr e ↦ rw e (room_of-append id k v rooms)
]

has_server-room_of :
    (id : String) (rooms : List (String × Value))
    → has_server id rooms ≡ true
    → (v : Value) × (room_of id rooms ≡ some v)
unfolding room_of
has_server-room_of id [] h = cc
has_server-room_of id ((k, v) ∷ rooms) h = elim (Bool-cases (str_eq k id)) [
  | inl e ↦ (v, rw e refl)
  | inr e ↦ let (u, found) = has_server-room_of id rooms (rw e at h) in (u, rw e found)
]

or_first-none : (a : Option Value) → or_first a none ≡ a
unfolding or_first
or_first-none none = refl
or_first-none (some a) = refl

or_first_assoc : (a b c : Option Value) → or_first (or_first a b) c ≡ or_first a (or_first b c)
unfolding or_first
or_first_assoc none b c = refl
or_first_assoc (some a) b c = refl

or_first_kept : (a : Option Value) (u b : Value) → a ≡ some u → or_first a (some b) ≡ a
unfolding or_first
or_first_kept none u b e = cc
or_first_kept (some a) u b e = refl

room_of-enter_server :
    (id : String) (o : Option String) (v : Value) (rooms : List (String × Value))
    → room_of id (enter_server o v rooms)
      ≡ or_first (room_of id rooms) (if is_name o id then some v else none)
unfolding is_name
room_of-enter_server id none v rooms = sym (or_first-none (room_of id rooms))
room_of-enter_server id (some k) v rooms = elim (Bool-cases (has_server k rooms)) [
  | inr new ↦ rw new (room_of-append id k v rooms)
  | inl old ↦ elim (Bool-cases (str_eq k id)) [
    | inr other ↦ rw (old, other) (sym (or_first-none (room_of id rooms)))
    | inl same ↦
        let there : has_server id rooms ≡ true =
          sym (ap (λ n. has_server n rooms) (same_name k id same)) ∙ old in
        let (u, found) = has_server-room_of id rooms there in
        rw (old, same) (sym (or_first_kept (room_of id rooms) u v found))
  ]
]

first_of-cons :
    (id : String) (v : Value) (vs : List Value)
    → or_first (if is_name (peer_id_of v) id then some v else none) (first_of id vs)
      ≡ first_of id (v ∷ vs)
unfolding first_of or_first
first_of-cons id v vs = elim (Bool-cases (is_name (peer_id_of v) id)) [
  | inl e ↦ rw e refl
  | inr e ↦ rw e refl
]

room_of-unique_servers :
    (id : String) (rooms : List (String × Value)) (vs : List Value)
    → room_of id (unique_servers rooms vs) ≡ or_first (room_of id rooms) (first_of id vs)
unfolding unique_servers
room_of-unique_servers id rooms [] = unfold first_of in sym (or_first-none (room_of id rooms))
room_of-unique_servers id rooms (v ∷ vs) =
    room_of-unique_servers id (enter_server (peer_id_of v) v rooms) vs
    ∙ ap (λ o. or_first o (first_of id vs)) (room_of-enter_server id (peer_id_of v) v rooms)
    ∙ or_first_assoc (room_of id rooms) _ (first_of id vs)
    ∙ ap (or_first (room_of id rooms)) (first_of-cons id v vs)

abbrev pub AreDistinct : List (String × Value) → Type 0
AreDistinct [] = Unit {0}
AreDistinct ((k, v) ∷ rooms) = (has_server k rooms ≡ false) × AreDistinct rooms

has_server-append :
    (id k : String) (v : Value) (rooms : List (String × Value))
    → has_server id rooms ≡ false
    → str_eq k id ≡ false
    → has_server id (rooms ++ ((k, v) ∷ [])) ≡ false
has_server-append id k v [] h e = rw e refl
has_server-append id k v ((j, u) ∷ rooms) h e = elim (Bool-cases (str_eq j id)) [
  | inl same ↦ let no : true ≡ false = rw same at h in cc no
  | inr other ↦ rw other (has_server-append id k v rooms (rw other at h) e)
]

apart : (j k : String) → str_eq j k ≡ false → str_eq k j ≡ false
apart j k h = elim (Bool-cases (str_eq k j)) [
  | inr e ↦ e
  | inl e ↦ let same : str_eq j k ≡ true = (eq_iff j k).1 (sym (same_name k j e)) in cc (same, h)
]

append-AreDistinct :
    (k : String) (v : Value) (rooms : List (String × Value))
    → has_server k rooms ≡ false
    → AreDistinct rooms
    → AreDistinct (rooms ++ ((k, v) ∷ []))
append-AreDistinct k v [] h d = (refl, tt)
append-AreDistinct k v ((j, u) ∷ rooms) h d = elim (Bool-cases (str_eq j k)) [
  | inl same ↦ let no : true ≡ false = rw same at h in cc no
  | inr other ↦ (
    has_server-append j k v rooms d.0 (apart j k other),
    append-AreDistinct k v rooms (rw other at h) d.1,
  )
]

enter_server-AreDistinct :
    (o : Option String) (v : Value) (rooms : List (String × Value))
    → AreDistinct rooms
    → AreDistinct (enter_server o v rooms)
enter_server-AreDistinct none v rooms d = d
enter_server-AreDistinct (some k) v rooms d = elim (Bool-cases (has_server k rooms)) [
  | inl e ↦ rw e d
  | inr e ↦ rw e (append-AreDistinct k v rooms e d)
]

unique_servers-AreDistinct :
    (rooms : List (String × Value)) (vs : List Value)
    → AreDistinct rooms
    → AreDistinct (unique_servers rooms vs)
unfolding unique_servers
unique_servers-AreDistinct rooms [] d = d
unique_servers-AreDistinct rooms (v ∷ vs) d =
    unique_servers-AreDistinct (enter_server (peer_id_of v) v rooms) vs
      (enter_server-AreDistinct (peer_id_of v) v rooms d)

module _ (from_str : String → Option Value) where
  -- The rooms that are listed have distinct hosts, and under each host's name stands the first room of that name that a message tells of, those of the presence before those of the messages.
  pub fetch_presence-first :
      (presence messages : Response) (id : String)
      → AreDistinct (fetch_presence from_str presence messages)
        × (room_of id (fetch_presence from_str presence messages)
            ≡ first_of id (servers_of from_str (messages_of presence ++ messages_of messages)))
  unfolding fetch_presence
  fetch_presence-first presence messages id =
      let vs = servers_of from_str (messages_of presence ++ messages_of messages) in
      (
        unique_servers-AreDistinct [] vs tt,
        room_of-unique_servers id [] vs ∙ (unfold room_of or_first in refl),
      )

  add_server-append :
      (o : Option Value) (xs ys : List Value) → add_server o (xs ++ ys) ≡ add_server o xs ++ ys
  add_server-append none xs ys = refl
  add_server-append (some v) xs ys = refl

  pub servers_of-append :
      (ms ns : List Value)
      → servers_of from_str (ms ++ ns) ≡ servers_of from_str ms ++ servers_of from_str ns
  servers_of-append [] ns = refl
  servers_of-append (m ∷ ms) ns =
      ap (add_server (read_message from_str m)) (servers_of-append ms ns)
      ∙ add_server-append (read_message from_str m) (servers_of from_str ms)
          (servers_of from_str ns)

  pub read_message-leave_message : (id : String) → read_message from_str (leave_message id) ≡ none
  unfolding read_message leave_message
  read_message-leave_message id = refl

  pub read_message-enter_message :
      (id : String) (room : Fields)
      → read_message from_str (enter_message id (object room))
        ≡ some (object (with_client (some (text id)) room))
  unfolding read_message enter_message
  read_message-enter_message id room = refl

  -- What a host publishes when it leaves changes nothing of the list: its room stays listed.
  pub fetch_presence-leave_message :
      (presence : Response) (before after : List Value) (id : String)
      → fetch_presence from_str presence (listed (before ++ (leave_message id ∷ after)))
        ≡ fetch_presence from_str presence (listed (before ++ after))
  unfolding fetch_presence
  fetch_presence-leave_message presence before after id =
      let ms = messages_of presence in
      let gone : servers_of from_str (leave_message id ∷ after) ≡ servers_of from_str after =
        ap (λ o. add_server o (servers_of from_str after)) (read_message-leave_message id) in
      let tail =
        servers_of-append before (leave_message id ∷ after)
        ∙ ap (λ vs. servers_of from_str before ++ vs) gone
        ∙ sym (servers_of-append before after) in
      ap (unique_servers []) (
        servers_of-append ms (before ++ (leave_message id ∷ after))
        ∙ ap (λ vs. servers_of from_str ms ++ vs) tail
        ∙ sym (servers_of-append ms (before ++ after)))
