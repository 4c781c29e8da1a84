-- ===== src/Examples/RelayRuns.antt =====
-- src/wss_relay.rs at concrete sessions, with a compressor that shortens runs of zeros.
use p2p_core.Base.{
  nat_key, ℕ, Bool, Bool-cases, List, Option, [], ap, ap₂, arith, false, if◌then◌else◌, inl, inr,
  length, lookup, none, ok, refl, replicate, some, suc, sym, true, zero, ◌++◌, ◌==◌, ◌∙◌, ◌∷◌, ◌≡◌,
  contains_key, map, str_eq, ◌≢◌,
}
use p2p_core.Base.Words.{Bytes}
use p2p_core.Net.{SocketAddr, v4}
use p2p_core.Relay.{
  Zstd, Frame, decode_frame, encode_data_frame_maybe_compressed, encode_frame, frame_close,
  frame_data, frame_open, frame_ready,
}
use p2p_core.Relay.Frames.{decode-encode, decode-encode_maybe_compressed}
use p2p_core.Relay.Host.{
  Session, Sockets, Event, tcp, binary, message, dispatch_host, host_reader, clean,
}
use p2p_core.Relay.Host.Isolation.{SameStream, dispatch_host-SameStream, given_to}
use p2p_core.Relay.Host.Delivery.{host_reader-delivers, chunks_for}
use p2p_core.Relay.Pumps.{pump_reader_to_ws}
use p2p_core.Relay.Tunnel.{arriving, chunks_of, reads_of, tunnel_carries}
use p2p_core.Relay.Client.{Client, Ready, accept, connection, dispatch_client, linked, on_ready}
use p2p_core.Relay.Client.Streams.{Reaches, starts, accepting, reading, next_stream_fresh}
use p2p_core.Relay.UdpClient.{UdpClient, UdpEvent, packet, frame, replies, udp_run, udp_run-replies}
use p2p_core.Relay.Handshake.{linked as linked_to, Json}

abbrev all_zero : Bytes → Bool
all_zero [] = true
all_zero (b ∷ bs) = if b == 0 then all_zero bs else false

replicate-all_zero : (p : Bytes) → all_zero p ≡ true → replicate (length p) 0 ≡ p
replicate-all_zero [] h = refl
replicate-all_zero (b ∷ bs) h = elim (Bool-cases (b == 0)) [
  | inl e ↦
      let b_zero : 0 ≡ b = ground arith in
      let rest : all_zero bs ≡ true = rw e at h in
      ap₂ (λ x xs. x ∷ xs) b_zero (replicate-all_zero bs rest)
  | inr e ↦ let no : false ≡ true = rw e at h in cc no
]

abbrev shorten : Bytes → Option Bytes
shorten p = if all_zero p then some (1 ∷ length p ∷ []) else some (0 ∷ p)

abbrev lengthen : Bytes → Option Bytes
lengthen (zero ∷ p) = some p
lengthen (suc zero ∷ n ∷ []) = some (replicate n 0)
lengthen _ = none

lengthen-shorten : (p c : Bytes) → shorten p ≡ some c → lengthen c ≡ some p
lengthen-shorten p c h = elim (Bool-cases (all_zero p)) [
  | inl z ↦
      let e : some (1 ∷ length p ∷ []) ≡ some c = rw z at h in
      let is : 1 ∷ length p ∷ [] ≡ c = cc e in
      ap lengthen (sym is) ∙ ap some (replicate-all_zero p z)
  | inr z ↦
      let e : some (0 ∷ p) ≡ some c = rw z at h in let is : 0 ∷ p ≡ c = cc e in ap lengthen (sym is)
]

abbrev zeros : Zstd
zeros = record { encode_all = shorten; decode_all = lengthen; decode-encode = lengthen-shorten }

abbrev fine : Sockets
fine = record { bind_udp = none; connect_tcp = none }

abbrev refused : Sockets
refused = record { bind_udp = none; connect_tcp = some (110 ∷ 111 ∷ []) }

abbrev empty : Session
empty = record { streams = []; sent = []; delivered = []; pings = [] }

abbrev one_open : Session
one_open = record empty { streams = (1, tcp) ∷ [] }

compressed_used :
    encode_data_frame_maybe_compressed zeros 1 (replicate 80 0)
    ≡ 8 ∷ 0 ∷ 0 ∷ 0 ∷ 0 ∷ 0 ∷ 0 ∷ 0 ∷ 1 ∷ 1 ∷ 80 ∷ []
unfolding encode_data_frame_maybe_compressed encode_frame
compressed_used = refl

abbrev chunks : List (ℕ × Bytes)
chunks = (104, 105 ∷ []) ∷ (0, replicate 80 0) ∷ []

tunnel_carries_example :
    let queued = (pump_reader_to_ws zeros 1 (reads_of chunks) one_open).sent in
    let r = host_reader zeros true (arriving zeros fine 0 queued) one_open in
    (given_to 1 r.0.delivered ≡ [] ++ chunks_of chunks)
    × (lookup 1 r.0.streams ≡ none)
    × (r.1 ≡ clean)
tunnel_carries_example =
    tunnel_carries zeros fine 0 1 true chunks one_open one_open (omega arith) refl refl

decode-encode_maybe_compressed_example :
    decode_frame zeros (encode_data_frame_maybe_compressed zeros 7 (replicate 80 0))
    ≡ ok (record { kind = frame_data; stream_id = 7; payload = replicate 80 0 })
decode-encode_maybe_compressed_example =
    decode-encode_maybe_compressed zeros 7 (replicate 80 0) (omega arith)

abbrev close_two : Frame
close_two = record { kind = frame_close; stream_id = 2; payload = [] }

dispatch_host-SameStream_example :
    SameStream 1 one_open (dispatch_host fine 0 true close_two one_open)
dispatch_host-SameStream_example =
    dispatch_host-SameStream 1 fine 0 true close_two one_open (λ e. omega arith)

abbrev open_three : Frame
open_three = record { kind = frame_open; stream_id = 3; payload = [] }

-- A chunk of stream 1, the CLOSE of stream 2 and another chunk of stream 1.
abbrev interleaved : List (Event × Frame)
interleaved =
    (
      record {
        net = fine;
        now = 0;
        incoming = message (binary (encode_frame frame_data 1 (5 ∷ [])));
      },
      record { kind = frame_data; stream_id = 1; payload = 5 ∷ [] },
    )
    ∷ (
      record { net = fine; now = 1; incoming = message (binary (encode_frame frame_close 2 [])) },
      close_two,
    )
    ∷ (
      record {
        net = fine;
        now = 2;
        incoming = message (binary (encode_frame frame_data 1 (6 ∷ [])));
      },
      record { kind = frame_data; stream_id = 1; payload = 6 ∷ [] },
    )
    ∷ []

host_reader-delivers_example :
    let r = host_reader zeros true (map (λ p. p.0) interleaved ++ []) one_open in
    (given_to 1 r.0.delivered ≡ given_to 1 [] ++ chunks_for 1 (map (λ p. p.1) interleaved))
    × (contains_key 1 r.0.streams ≡ true)
    × (r.1 ≡ clean)
host_reader-delivers_example =
    host_reader-delivers zeros 1 true interleaved one_open
      (
        (_, refl, decode-encode zeros frame_data 1 (5 ∷ []) (λ e. omega arith) (omega arith)),
        (
          (_, refl, decode-encode zeros frame_close 2 [] (λ e. omega arith) (omega arith)),
          (
            (_, refl, decode-encode zeros frame_data 1 (6 ∷ []) (λ e. omega arith) (omega arith)),
            tt,
          ),
        ),
      )
      ((λ e. refl), ((λ e. absurd (omega arith)), ((λ e. refl), tt))) refl

abbrev waiting : Ready
waiting = record { got_ready = false; signal = true; answered = 0 }

abbrev accepted_one : Client
accepted_one = accept (connection true) (linked waiting)

abbrev ready_frame : Frame
ready_frame = record { kind = frame_ready; stream_id = 0; payload = [] }

abbrev after_ready : Client
after_ready = dispatch_client 5 true ready_frame accepted_one

Reaches-ready : Reaches waiting 1 after_ready
Reaches-ready = reading 5 true ready_frame accepted_one (accepting (linked waiting) starts)

next_stream_fresh_example :
    (contains_key after_ready.counter after_ready.session.streams ≡ false)
    × (after_ready.counter ≢ 0)
next_stream_fresh_example = next_stream_fresh waiting 1 after_ready Reaches-ready (omega arith)

ready_answered : after_ready.ready.answered ≡ 1
unfolding dispatch_client on_ready accept
ready_answered = refl

abbrev game : SocketAddr
game = record { ip = v4 127 0 0 1; port = 50000 }

abbrev udp_client : UdpClient
udp_client = record { session = empty; last_client_addr = none; sent_to = []; ready = waiting }

abbrev udp_events : List UdpEvent
udp_events =
    frame 0 true (record { kind = frame_data; stream_id = 0; payload = 1 ∷ [] })
    ∷ packet game (2 ∷ [])
    ∷ frame 1 true (record { kind = frame_data; stream_id = 0; payload = 3 ∷ [] })
    ∷ []

udp_run-replies_example : (udp_run udp_events udp_client).sent_to ≡ [] ++ replies udp_events none
udp_run-replies_example = udp_run-replies udp_events udp_client

only_the_last : replies udp_events none ≡ (game, 3 ∷ []) ∷ []
only_the_last = refl

-- A stand-in for JSON that knows one message.
abbrev one_message : Json
one_message = record {
  to_string = λ m. "";
  from_str = λ t. if str_eq t "linked to room" then some (linked_to "room") else none;
}
