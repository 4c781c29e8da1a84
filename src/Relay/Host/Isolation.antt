-- ===== src/Relay/Host/Isolation.antt =====
-- The streams of a host session do not see each other's frames.
use p2p_core.Base.{
  nat_key, ℕ, Bool-cases, List, Option, [], append-nil, arith, contains_key, if◌then◌else◌, inl,
  inr, lookup, lookup-insert, none, refl, some, ◌++◌, ◌==◌, ◌∷◌, ◌≡◌, ◌≢◌, ◌∙◌, Bool, lookup-remove,
}
use p2p_core.Relay.{Frame}
use p2p_core.Relay.Host.{
  udp, tcp, Session, Sockets, dispatch_host, Transport, deliver, on_open, open_stream, open_zero,
  on_data, on_pong,
}
use p2p_core.Base.Words.{Bytes}

-- The payloads that one stream got, in their order.
abbrev pub given_to : ℕ → List (ℕ × Bytes) → List Bytes
given_to b [] = []
given_to b ((a, p) ∷ ps) = if a == b then p ∷ given_to b ps else given_to b ps

pub given_to-append :
    (b : ℕ) (ps qs : List (ℕ × Bytes)) → given_to b (ps ++ qs) ≡ given_to b ps ++ given_to b qs
given_to-append b [] qs = refl
given_to-append b ((a, p) ∷ ps) qs = ground (arith, given_to-append b ps qs)

-- The two sessions agree on stream b: whether it is open, on which transport, and what it got.
unfoldable pub SameStream : ℕ → Session → Session → Type 0
SameStream b s t =
    (lookup b s.streams ≡ lookup b t.streams) × (given_to b s.delivered ≡ given_to b t.delivered)

open_stream-SameStream :
    (b id : ℕ) (t : Transport) (o : Option Bytes) (s : Session)
    → id ≢ b
    → SameStream b s (open_stream id t o s)
unfolding SameStream open_stream
open_stream-SameStream b id t none s ne = (rw (lookup-insert id b t s.streams) (ground arith), refl)
open_stream-SameStream b id t (some e) s ne = (refl, refl)

deliver-SameStream :
    (b : ℕ) (f : Frame) (s : Session) → f.stream_id ≢ b → SameStream b s (deliver f s)
unfolding SameStream deliver
deliver-SameStream b f s ne = elim (Bool-cases (contains_key f.stream_id s.streams)) [
  | inl here ↦ (
    rw here refl,
    rw (here, given_to-append b s.delivered ((f.stream_id, f.payload) ∷ []))
        (ground (arith, append-nil (given_to b s.delivered))),
  )
  | inr out ↦ (rw out refl, rw out refl)
]

SameStream-refl : (b : ℕ) (s : Session) → SameStream b s s
unfolding SameStream
SameStream-refl b s = (refl, refl)

pub SameStream-trans :
    (b : ℕ) (s t u : Session) → SameStream b s t → SameStream b t u → SameStream b s u
unfolding SameStream
SameStream-trans b s t u h k = (h.0 ∙ k.0, h.1 ∙ k.1)

on_open-SameStream :
    (b : ℕ) (net : Sockets) (f : Frame) (s : Session)
    → f.stream_id ≢ b
    → SameStream b s (on_open net f s)
unfolding on_open SameStream
on_open-SameStream b net f s ne = ground (
  arith,
  open_stream-SameStream b f.stream_id udp net.bind_udp s ne,
  open_stream-SameStream b f.stream_id tcp net.connect_tcp s ne,
)

open_zero-SameStream :
    (b : ℕ) (o : Option Bytes) (s : Session) → 0 ≢ b → SameStream b s (open_zero o s)
unfolding open_zero open_stream SameStream
open_zero-SameStream b none s ne = open_stream-SameStream b 0 udp none s ne
open_zero-SameStream b (some e) s ne = (refl, refl)

on_data-SameStream :
    (b : ℕ) (net : Sockets) (f : Frame) (s : Session)
    → f.stream_id ≢ b
    → SameStream b s (on_data net f s)
unfolding on_data
on_data-SameStream b net f s ne = elim (Bool-cases (contains_key f.stream_id s.streams)) [
  | inl here ↦ rw here (deliver-SameStream b f s ne)
  | inr out ↦ elim (Bool-cases (f.stream_id == 0)) [
    | inl first ↦
        rw (out, first)
          (SameStream-trans b s (open_zero net.bind_udp s) (deliver f (open_zero net.bind_udp s))
            (open_zero-SameStream b net.bind_udp s (ground arith))
            (deliver-SameStream b f (open_zero net.bind_udp s) ne))
    | inr other ↦ rw (out, other) (SameStream-refl b s)
  ]
]

-- A frame changes nothing of a stream that it does not name: whatever its kind and whatever the
-- sockets do, the other streams stay open or closed as they were, and get no byte of it.
pub dispatch_host-SameStream :
    (b : ℕ) (net : Sockets) (now : ℕ) (report : Bool) (f : Frame) (s : Session)
    → f.stream_id ≢ b
    → SameStream b s (dispatch_host net now report f s)
unfolding dispatch_host SameStream on_pong
dispatch_host-SameStream b net now report f s ne = ground (
  arith,
  on_open-SameStream b net f s ne,
  on_data-SameStream b net f s ne,
  lookup-remove f.stream_id b s.streams,
)
