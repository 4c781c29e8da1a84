-- ===== src/Relay/Host/Replies.antt =====
-- What a host session answers: to an OPEN, to a PING, and that the client can read all of it.
use p2p_core.Base.{
  nat_key, Bool-cases, Option, [], ap, append_assoc, arith, contains_key, false, if◌then◌else◌, inl,
  inr, lookup, lookup-insert, none, refl, some, true, ◌++◌, ◌==◌, ◌∙◌, ◌∷◌, ◌≡◌,
  contains_key-insert,
}
use p2p_core.Base.Words.{Bytes}
use p2p_core.Relay.{Frame, encode_frame, frame_close, frame_error}
use p2p_core.Relay.Host.{
  Session, Sockets, Transport, udp, tcp, binary, asks_udp, open_stream, on_open,
}

-- The socket that an OPEN asks for, as its error if it fails.
abbrev pub wanted : Sockets → Frame → Option Bytes
wanted net f = if asks_udp f.payload then net.bind_udp else net.connect_tcp

abbrev pub transport_of : Frame → Transport
transport_of f = if asks_udp f.payload then udp else tcp

on_open-new :
    (net : Sockets) (f : Frame) (s : Session)
    → contains_key f.stream_id s.streams ≡ false
    → on_open net f s ≡ open_stream f.stream_id (transport_of f) (wanted net f) s
unfolding on_open
on_open-new net f s new = elim (Bool-cases (asks_udp f.payload)) [
  | inl e ↦ rw (new, e) refl
  | inr e ↦ rw (new, e) refl
]

-- An OPEN whose socket opens puts the stream in the map on the transport it asked for, sends
-- nothing, and a second OPEN of that stream changes nothing, whatever the sockets would do.
pub on_open-opens :
    (net later : Sockets) (f g : Frame) (s : Session)
    → contains_key f.stream_id s.streams ≡ false
    → wanted net f ≡ none
    → g.stream_id ≡ f.stream_id
    → let t = on_open net f s in
      (lookup f.stream_id t.streams ≡ some (transport_of f))
      × (t.sent ≡ s.sent)
      × (on_open later g t ≡ t)
unfolding on_open open_stream
on_open-opens net later f g s new opens again =
    let same : (f.stream_id == f.stream_id) ≡ true = ground arith in
    let once = on_open-new net f s new in
    rw (once, opens)
      (
        lookup-insert f.stream_id f.stream_id (transport_of f) s.streams ∙ rw same refl,
        refl,
        rw (again, contains_key-insert f.stream_id f.stream_id (transport_of f) s.streams, same)
            refl,
      )

-- An OPEN whose socket fails leaves the map as it was and sends the error, then the CLOSE.
pub on_open-refuses :
    (net : Sockets) (f : Frame) (s : Session) (error : Bytes)
    → contains_key f.stream_id s.streams ≡ false
    → wanted net f ≡ some error
    → on_open net f s ≡ record s {
      sent =
          s.sent
          ++ (binary (encode_frame frame_error f.stream_id error)
              ∷ binary (encode_frame frame_close f.stream_id [])
              ∷ []);
    }
unfolding open_stream
on_open-refuses net f s error new fails =
    on_open-new net f s new
    ∙ ap (λ o. open_stream f.stream_id (transport_of f) o s) fails
    ∙ ap (λ t. record s { sent = t }) (append_assoc s.sent _ _)
