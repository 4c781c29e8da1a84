-- ===== src/Relay/Client.antt =====
-- src/wss_relay.rs, the client side: the accept loop and the reader loop of `client_session`.
-- A session of frames is the host's record (Relay/Host): the map of streams, the queue to the
-- WebSocket, the payloads given to the streams' channels, the round trip times.
pub mod Streams
pub mod Ping
use p2p_core.Base.{
  nat_key, ℕ, Bool, List, Outcome, [], err, false, if◌then◌else◌, insert, ok, out_of_fuel, panic,
  remove, suc, true, ◌+◌, ◌==◌, ◌>>=◌, ◌||◌, ◌∷◌,
}
use p2p_core.Relay.{
  Zstd, Frame, FrameError, decode_frame, encode_frame, frame_close, frame_data, frame_error,
  frame_open, frame_ping, frame_pong, frame_ready,
}
use p2p_core.Relay.Host.{
  Session, Event, Ending, clean, read_failed, crashed, bad_frame, message, text, binary, ws_ping,
  ws_pong, ws_close, read_error, stream_end, cancelled, send, deliver, on_pong, tcp,
}
use p2p_core.Base.Words.{Bytes, to_be, u64}

-- `got_ready` of one session, and `ready_signal` of the loop: whether its sender is still there,
-- and how often it was told `Ok(())`.
pub record Ready : Type 0 where
  pub got_ready : Bool
  pub signal : Bool
  pub answered : ℕ

unfoldable pub on_ready : Ready → Ready
on_ready r =
    if r.got_ready
    then r
    else if r.signal
    then record r { got_ready = true; signal = false; answered = suc r.answered }
    else record r { got_ready = true }

pub record Client : Type 0 where
  pub session : Session
  pub counter : ℕ
  pub ready : Ready

unfoldable pub on_session : (Session → Session) → Client → Client
on_session f c = record c { session = f c.session }

-- What the client does with a frame that has the kind DATA, CLOSE, ERROR, PING or PONG.
unfoldable pub client_frame : ℕ → Bool → Frame → Session → Session
client_frame now report f s =
    if f.kind == frame_data
    then deliver f s
    else if f.kind == frame_close || f.kind == frame_error
    then record s { streams = remove f.stream_id s.streams }
    else if f.kind == frame_ping
    then send (binary (encode_frame frame_pong f.stream_id f.payload)) s
    else if f.kind == frame_pong
    then on_pong now report f s
    else s

unfoldable pub dispatch_client : ℕ → Bool → Frame → Client → Client
dispatch_client now report f c =
    if f.kind == frame_ready
    then record c { ready = on_ready c.ready }
    else on_session (client_frame now report f) c

-- What `listener.accept()` gives, with whether the queue to the WebSocket still has a reader.
pub data Accepted : Type 0 where
  connection : Bool → Accepted
  accept_error : Accepted

-- `fetch_add(1)` wraps. Without a reader of the queue the loop ends, before the stream is stored.
unfoldable pub accept : Accepted → Client → Client
accept accept_error c = c
accept (connection false) c = record c { counter = u64 (c.counter + 1) }
accept (connection true) c =
    let opened = send (binary (encode_frame frame_open c.counter [])) c.session in
    record c {
      counter = u64 (c.counter + 1);
      session = record opened { streams = insert c.counter tcp opened.streams };
    }

-- The frame that the keepalive task queues at a time, before its WebSocket ping.
unfoldable pub keepalive : ℕ → Session → Session
keepalive now s =
    send (ws_ping []) (send (binary (encode_frame frame_ping 0 (to_be 8 (u64 now)))) s)

-- The state that `client_session` starts its loops in, once it is linked and has sent HELLO.
abbrev pub linked : Ready → Client
linked r = record {
  session = record { streams = []; sent = []; delivered = []; pings = [] };
  counter = 1;
  ready = record r { got_ready = false };
}

module _ (zstd : Zstd) where
  abbrev pub after_client_frame :
      Outcome FrameError Client → Client → (Client → Client × Ending) → Client × Ending
  after_client_frame (ok d) c rest = rest d
  after_client_frame (err e) c rest = (c, bad_frame e)
  after_client_frame panic c rest = (c, crashed)
  after_client_frame out_of_fuel c rest = (c, crashed)

  unfoldable pub handle_client_frame : ℕ → Bool → Bytes → Client → Outcome FrameError Client
  handle_client_frame now report raw c = do
    frame ← decode_frame zstd raw
    ok (dispatch_client now report frame c)

  unfoldable pub client_reader : Bool → List Event → Client → Client × Ending
  client_reader report [] c = (c, clean)
  client_reader report (e ∷ es) c = elim e.incoming [
    | message m ↦ elim m [
      | binary raw ↦
          after_client_frame (handle_client_frame e.now report raw c) c
            (λ d. client_reader report es d)
      | ws_ping d ↦ client_reader report es (on_session (send (ws_pong d)) c)
      | ws_close ↦ (c, clean)
      | text _ ↦ client_reader report es c
      | ws_pong _ ↦ client_reader report es c
    ]
    | read_error ↦ (c, read_failed)
    | stream_end ↦ (c, clean)
    | cancelled ↦ (c, clean)
  ]
