-- ===== src/Relay/Handshake.antt =====
-- src/wss_relay.rs: the JSON handshake that opens a session, up to the loops of frames.
-- JSON is a library's: `Json` has its two functions.
use p2p_core.Base.{
  String, Option, some, ◌≡◌, Outcome, err, none, ok, ok_or, ◌>>=◌, out_of_fuel, panic, refl, ◌↔◌,
}
use p2p_core.Relay.Host.{Message, binary, text, ws_close, ws_ping, ws_pong}

pub data HandshakeMessage : Type 0 where
  host_register client_join registered linked error : String → HandshakeMessage

-- `serde_json::to_string` and `from_str` at `HandshakeMessage`.
pub record Json : Type 0 where
  pub to_string : HandshakeMessage → String
  pub from_str : String → Option HandshakeMessage

pub data HandshakeError : Type 0 where
  closed read_failed timed_out bad_json unexpected_type : HandshakeError
  relay_error : String → HandshakeError
  unexpected : HandshakeMessage → HandshakeError

-- `ws_read.next()` under a timeout.
pub data Ack : Type 0 where
  late ended unreadable : Ack
  came : Message → Ack

-- The waits and checks that the three handshakes share: the message, or the error.
abbrev pub confirmed : Json → Ack → Outcome HandshakeError HandshakeMessage
confirmed json late = err timed_out
confirmed json ended = err closed
confirmed json unreadable = err HandshakeError.read_failed
confirmed json (came (text t)) = ok_or (json.from_str t) bad_json
confirmed json (came (binary _)) = err unexpected_type
confirmed json (came (ws_ping _)) = err unexpected_type
confirmed json (came (ws_pong _)) = err unexpected_type
confirmed json (came ws_close) = err unexpected_type

abbrev pub expect_registered : HandshakeMessage → Outcome HandshakeError String
expect_registered (registered id) = ok id
expect_registered (error m) = err (relay_error m)
expect_registered (host_register id) = err (unexpected (host_register id))
expect_registered (client_join id) = err (unexpected (client_join id))
expect_registered (linked id) = err (unexpected (linked id))

abbrev pub expect_linked : HandshakeMessage → Outcome HandshakeError String
expect_linked (linked id) = ok id
expect_linked (error m) = err (relay_error m)
expect_linked (host_register id) = err (unexpected (host_register id))
expect_linked (client_join id) = err (unexpected (client_join id))
expect_linked (registered id) = err (unexpected (registered id))

-- Steps 2 and 3 of `host_session`: the text sent, and what the answer makes of it.
unfoldable pub host_handshake : Json → String → Ack → Message × Outcome HandshakeError String
host_handshake json session_id ack =
    (text (json.to_string (host_register session_id)), confirmed json ack >>= expect_registered)

-- Steps 2 and 3 of `client_session` and of `client_session_udp`.
unfoldable pub client_handshake : Json → String → Ack → Message × Outcome HandshakeError String
client_handshake json session_id ack =
    (text (json.to_string (client_join session_id)), confirmed json ack >>= expect_linked)

-- The answer of the relay is a text that reads as the message.
abbrev pub AnsweredBy : Json → Ack → HandshakeMessage → Type 0
AnsweredBy json ack m = (t : String) × (ack ≡ came (text t)) × (json.from_str t ≡ some m)

ok_or-some : {E A : Type 0} (e : E) (o : Option A) (a : A) → ok_or o e ≡ ok a → o ≡ some a
ok_or-some e none a h = cc h
ok_or-some e (some b) a h = cc h

confirmed-AnsweredBy :
    (json : Json) (ack : Ack) (m : HandshakeMessage)
    → confirmed json ack ≡ ok m
    → AnsweredBy json ack m
confirmed-AnsweredBy json late m h = cc h
confirmed-AnsweredBy json ended m h = cc h
confirmed-AnsweredBy json unreadable m h = cc h
confirmed-AnsweredBy json (came (text t)) m h = (t, refl, ok_or-some bad_json (json.from_str t) m h)
confirmed-AnsweredBy json (came (binary _)) m h = cc h
confirmed-AnsweredBy json (came (ws_ping _)) m h = cc h
confirmed-AnsweredBy json (came (ws_pong _)) m h = cc h
confirmed-AnsweredBy json (came ws_close) m h = cc h

expect_linked-ok :
    (o : Outcome HandshakeError HandshakeMessage) (id : String)
    → o >>= expect_linked ≡ ok id
    → o ≡ ok (linked id)
expect_linked-ok (ok (linked i)) id h = cc h
expect_linked-ok (ok (error i)) id h = cc h
expect_linked-ok (ok (host_register i)) id h = cc h
expect_linked-ok (ok (client_join i)) id h = cc h
expect_linked-ok (ok (registered i)) id h = cc h
expect_linked-ok (err i) id h = cc h
expect_linked-ok panic id h = cc h
expect_linked-ok out_of_fuel id h = cc h

-- The client goes on to its frames exactly when the relay answers Linked in time, whatever the
-- session: every other answer, an unreadable one, silence and the end of the stream are errors.
pub client_handshake-linked :
    (json : Json) (session_id id : String) (ack : Ack)
    → ((client_handshake json session_id ack).1 ≡ ok id) ↔ AnsweredBy json ack (linked id)
unfolding client_handshake
client_handshake-linked json session_id id ack = (
  λ h. confirmed-AnsweredBy json ack (linked id) (expect_linked-ok (confirmed json ack) id h),
  λ (t, e, r). rw (e, r) refl,
)
