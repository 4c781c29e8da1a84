-- ===== src/Relay.antt =====
-- src/wss_relay.rs: the relay that carries many streams over one WebSocket. Here: the frames.
-- Compression is a library's: `Zstd` is what the code relies on of it.
pub mod Frames
pub mod Host
pub mod Pumps
pub mod Tunnel
pub mod Client
pub mod UdpClient
pub mod Handshake
pub mod Loops
use p2p_core.Base.{
  ℕ, Option, Outcome, drop, err, if◌then◌else◌, index, length, ltb, none, ok, ok_or, some, take,
  ◌++◌, ◌==◌, ◌>>=◌, ◌∷◌, ◌≡◌,
}
use p2p_core.Base.Words.{Bytes, from_be, to_be}

abbrev pub frame_open : ℕ
frame_open = 1

abbrev pub frame_data : ℕ
frame_data = 2

abbrev pub frame_close : ℕ
frame_close = 3

abbrev pub frame_hello : ℕ
frame_hello = 4

abbrev pub frame_ready : ℕ
frame_ready = 5

abbrev pub frame_error : ℕ
frame_error = 6

abbrev pub frame_ping : ℕ
frame_ping = 7

abbrev pub frame_data_zstd : ℕ
frame_data_zstd = 8

abbrev pub frame_pong : ℕ
frame_pong = 9

abbrev pub zstd_min_payload : ℕ
zstd_min_payload = 64

-- `zstd::stream::encode_all` at level 1 and `decode_all`; `none` is their `Err`. What is decoded is
-- what was encoded.
pub record Zstd : Type 0 where
  pub encode_all : Bytes → Option Bytes
  pub decode_all : Bytes → Option Bytes
  pub decode-encode : (p c : Bytes) → encode_all p ≡ some c → decode_all c ≡ some p

pub record Frame : Type 0 where
  pub kind : ℕ
  pub stream_id : ℕ
  pub payload : Bytes

pub data FrameError : Type 0 where
  frame_too_short : ℕ → FrameError
  decompression_failed : FrameError

unfoldable pub encode_frame : ℕ → ℕ → Bytes → Bytes
encode_frame kind stream_id payload = kind ∷ (to_be 8 stream_id ++ payload)

module _ (zstd : Zstd) where
  -- The tests before the slices keep `data[0]`, `data[1..9]` and `data[9..]` in range.
  unfoldable pub decode_frame : Bytes → Outcome FrameError Frame
  decode_frame raw = if ltb (length raw) 9 then err (frame_too_short (length raw)) else do
    kind ← index raw 0
    let stream_id = from_be (take 8 (drop 1 raw))
    let payload = drop 9 raw
    if kind == frame_data_zstd
        then (do
          decompressed ← ok_or (zstd.decode_all payload) decompression_failed
          ok (record { kind = frame_data; stream_id = stream_id; payload = decompressed }))
        else ok (record { kind = kind; stream_id = stream_id; payload = payload })

  -- `Ok(compressed) if compressed.len() < payload.len()`
  abbrev pub smaller : Option Bytes → Bytes → Option Bytes
  smaller none payload = none
  smaller (some c) payload = if ltb (length c) (length payload) then some c else none

  unfoldable pub encode_data_frame_maybe_compressed : ℕ → Bytes → Bytes
  encode_data_frame_maybe_compressed stream_id payload =
      if ltb (length payload) zstd_min_payload
      then encode_frame frame_data stream_id payload
      else elim (smaller (zstd.encode_all payload) payload) [
        | some compressed ↦ encode_frame frame_data_zstd stream_id compressed
        | none ↦ encode_frame frame_data stream_id payload
      ]
