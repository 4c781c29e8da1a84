-- ===== src/Relay/Host.antt =====
-- src/wss_relay.rs, the host side: `handle_host_frame` and the reader loop of `host_session`.
-- The sockets are an argument of each frame: whether a local UDP bind or TCP connect succeeds, with
-- the bytes of its error text. The tasks that a stream has are steps of their own (Relay/Pumps).
pub mod Replies
pub mod Isolation
pub mod Delivery
use p2p_core.Base.{
  nat_key, ℕ, Bool, List, Option, Outcome, String, [], contains_key, err, false, if◌then◌else◌,
  insert, length, none, ok, out_of_fuel, panic, remove, some, ◌&&◌, ◌++◌, ◌-◌, ◌==◌, ◌>>=◌, ◌||◌,
  ◌∷◌,
}
use p2p_core.Base.Words.{Bytes, from_be}
use p2p_core.Relay.{
  Zstd, Frame, FrameError, encode_frame, decode_frame, frame_close, frame_data, frame_error,
  frame_hello, frame_open, frame_ping, frame_pong, frame_ready,
}

-- `tungstenite::Message`
pub data Message : Type 0 where
  text : String → Message
  binary : Bytes → Message
  ws_ping : Bytes → Message
  ws_pong : Bytes → Message
  ws_close : Message

pub data Transport : Type 0 where
  tcp udp : Transport

-- `none` is a socket that opened.
pub record Sockets : Type 0 where
  pub bind_udp : Option Bytes
  pub connect_tcp : Option Bytes

-- What a session's frames change: the map of the streams, the queue to the WebSocket, the payloads
-- given to the streams' channels, and the round trip times reported. The queues are bounded in the
-- code, so a sender may wait; what is sent, and in which order, is the same.
pub record Session : Type 0 where
  pub streams : List (ℕ × Transport)
  pub sent : List Message
  pub delivered : List (ℕ × Bytes)
  pub pings : List ℕ

abbrev pub send : Message → Session → Session
send m s = record s { sent = s.sent ++ (m ∷ []) }

-- The frames of a stream that could not be opened.
abbrev pub refuse : ℕ → Bytes → Session → Session
refuse id error s =
    send (binary (encode_frame frame_close id []))
      (send (binary (encode_frame frame_error id error)) s)

unfoldable pub open_stream : ℕ → Transport → Option Bytes → Session → Session
open_stream id t none s = record s { streams = insert id t s.streams }
open_stream id t (some error) s = refuse id error s

-- `frame.payload.len() == 1 && frame.payload[0] == 1`
abbrev pub asks_udp : Bytes → Bool
asks_udp (b ∷ []) = b == 1
asks_udp _ = false

unfoldable pub on_open : Sockets → Frame → Session → Session
on_open net f s =
    if contains_key f.stream_id s.streams
    then s
    else if asks_udp f.payload
    then open_stream f.stream_id udp net.bind_udp s
    else open_stream f.stream_id tcp net.connect_tcp s

-- A DATA frame for stream 0 opens a UDP socket where there is none; an error is passed over.
unfoldable pub open_zero : Option Bytes → Session → Session
open_zero none s = record s { streams = insert 0 udp s.streams }
open_zero (some _) s = s

unfoldable pub deliver : Frame → Session → Session
deliver f s =
    if contains_key f.stream_id s.streams
    then record s { delivered = s.delivered ++ ((f.stream_id, f.payload) ∷ []) }
    else s

unfoldable pub on_data : Sockets → Frame → Session → Session
on_data net f s =
    if contains_key f.stream_id s.streams
    then deliver f s
    else if f.stream_id == 0
    then deliver f (open_zero net.bind_udp s)
    else s

-- `now` is the clock in milliseconds; `report` is whether somebody listens for the times.
unfoldable pub on_pong : ℕ → Bool → Frame → Session → Session
on_pong now report f s =
    if length f.payload == 8 && report
    then record s { pings = s.pings ++ ((now - from_be f.payload) ∷ []) }
    else s

unfoldable pub dispatch_host : Sockets → ℕ → Bool → Frame → Session → Session
dispatch_host net now report f s =
    if f.kind == frame_hello
    then send (binary (encode_frame frame_ready 0 [])) s
    else if f.kind == frame_open
    then on_open net f s
    else if f.kind == frame_data
    then on_data net f s
    else if f.kind == frame_close || f.kind == frame_error
    then record s { streams = remove f.stream_id s.streams }
    else if f.kind == frame_ping
    then send (binary (encode_frame frame_pong f.stream_id f.payload)) s
    else if f.kind == frame_pong
    then on_pong now report f s
    else s

-- What `ws_read.next()` gives: a message, a read error, or the end of the stream. `cancelled` is
-- the other arm of the `select!`.
pub data Incoming : Type 0 where
  message : Message → Incoming
  read_error stream_end cancelled : Incoming

-- What the reader loop comes upon, with the sockets and the clock at that time.
pub record Event : Type 0 where
  pub net : Sockets
  pub now : ℕ
  pub incoming : Incoming

pub data Ending : Type 0 where
  clean read_failed crashed : Ending
  bad_frame : FrameError → Ending

-- The `?` of a frame's result: what was done before stays done.
abbrev pub after_frame :
    Outcome FrameError Session → Session → (Session → Session × Ending) → Session × Ending
after_frame (ok t) s rest = rest t
after_frame (err e) s rest = (s, bad_frame e)
after_frame panic s rest = (s, crashed)
after_frame out_of_fuel s rest = (s, crashed)

module _ (zstd : Zstd) where
  unfoldable pub handle_host_frame :
      Sockets → ℕ → Bool → Bytes → Session → Outcome FrameError Session
  handle_host_frame net now report raw s = do
    frame ← decode_frame zstd raw
    ok (dispatch_host net now report frame s)

  -- The end of the events is the end of the stream.
  unfoldable pub host_reader : Bool → List Event → Session → Session × Ending
  host_reader report [] s = (s, clean)
  host_reader report (e ∷ es) s = elim e.incoming [
    | message m ↦ elim m [
      | binary raw ↦
          after_frame (handle_host_frame e.net e.now report raw s) s (λ t. host_reader report es t)
      | ws_ping d ↦ host_reader report es (send (ws_pong d) s)
      | ws_close ↦ (s, clean)
      | text _ ↦ host_reader report es s
      | ws_pong _ ↦ host_reader report es s
    ]
    | read_error ↦ (s, read_failed)
    | stream_end ↦ (s, clean)
    | cancelled ↦ (s, clean)
  ]
