-- ===== src/Minecraft/Probe.antt =====
-- src/minecraft.rs: the probes of a server, Bedrock's ping and Java's status query. What the sockets
-- give is an argument, and so is the reader of the JSON text.
pub mod Answered
use p2p_core.Base.{
  ◌>>◌, ok, err, panic, out_of_fuel, ℕ, Bool, List, Option, Outcome, [], drop, false, get_or,
  if◌then◌else◌, leb, length, ltb, none, ok_or, replicate, some, take, true, ◌&&◌, ◌++◌, ◌+◌, ◌==◌,
  ◌>>=◌, ◌^◌, ◌∷◌,
}
use p2p_core.Base.Words.{Bytes, from_be, u64, to_be}
use p2p_core.Text.Utf8.{from_utf8_lossy}
use p2p_core.Text.Numbers.{parse_uint, split}
use p2p_core.Discovery.{raknet_magic, unwrap_or}
use p2p_core.Minecraft.{ℤ, pos, negsuc, VarintError, read_varint}

pub record ExternalServerProbe : Type 0 where
  pub room_name : Bytes
  pub host_name : Bytes
  pub version : Option Bytes
  pub online_players : ℕ
  pub max_players : ℕ

-- The ping of `probe_bedrock_server_sync`, by the clock's milliseconds.
unfoldable pub bedrock_ping : ℕ → Bytes
bedrock_ping now = 0x01 ∷ (to_be 8 (u64 now) ++ (raknet_magic ++ replicate 8 0))

abbrev pub probe_parts : List Bytes → ExternalServerProbe
probe_parts parts = record {
  room_name = get_or parts 1 [];
  host_name = get_or parts 1 [];
  version = some (get_or parts 3 []);
  online_players = unwrap_or (parse_uint (2 ^ 32) (get_or parts 4 [])) 0;
  max_players = unwrap_or (parse_uint (2 ^ 32) (get_or parts 5 [])) 0;
}

-- The length of the text, at the bytes 33 and 34.
abbrev pub text_len : Bytes → ℕ
text_len buf = from_be (get_or buf 33 0 ∷ get_or buf 34 0 ∷ [])

-- `probe_bedrock_server_sync` on the buffer of 1024 bytes and the bytes received; the time that the
-- answer took is left out.
unfoldable pub read_bedrock_pong : Bytes → ℕ → Option ExternalServerProbe
read_bedrock_pong buf len =
    if ltb 35 len && (get_or buf 0 0 == 0x1c)
    then (if leb (35 + text_len buf) len
        then (let parts = split b';' (from_utf8_lossy (take (text_len buf) (drop 35 buf))) in
            if leb 6 (length parts) then some (probe_parts parts) else none)
        else none)
    else none

pub data QueryError : Type 0 where
  unreachable short_stream bad_varint unexpected_packet negative_length bad_json : QueryError

abbrev pub varint_of : Outcome VarintError (ℤ × Bytes) → Outcome QueryError (ℤ × Bytes)
varint_of (ok r) = ok r
varint_of (err e) = err bad_varint
varint_of panic = panic
varint_of out_of_fuel = out_of_fuel

abbrev pub is_zero : ℤ → Bool
is_zero (pos n) = n == 0
is_zero (negsuc n) = false

-- `vec![0u8; payload_len]` and `read_exact`.
abbrev pub read_payload : ℤ → Bytes → Outcome QueryError Bytes
read_payload (negsuc n) stream = err negative_length
read_payload (pos n) stream = if leb n (length stream) then ok (take n stream) else err short_stream

module _ {S : Type 0} (from_slice : Bytes → Option S) where
  abbrev pub expect_zero : Bool → Outcome QueryError (Unit {0})
  expect_zero true = ok tt
  expect_zero false = err unexpected_packet

  -- `query_status` on the bytes that the server sends.
  unfoldable pub read_status : Bytes → Outcome QueryError S
  read_status stream = do
    (packet_length, after_length) ← varint_of (read_varint stream)
    (packet_id, after_id) ← varint_of (read_varint after_length)
    expect_zero (is_zero packet_id)
    (payload_len, after_payload_len) ← varint_of (read_varint after_id)
    payload ← read_payload payload_len after_payload_len
    ok_or (from_slice payload) bad_json

  abbrev pub status_protocol_candidates : List ℕ
  status_protocol_candidates = 767 ∷ 764 ∷ 760 ∷ 47 ∷ []

  abbrev pub try_turn :
      Outcome QueryError S → (QueryError → Outcome QueryError S) → Outcome QueryError S
  try_turn (ok s) next = ok s
  try_turn (err e) next = next e
  try_turn panic next = panic
  try_turn out_of_fuel next = out_of_fuel

  -- The candidates in turn, each with the connection's stream; the error is the last one's.
  unfoldable pub try_candidates :
      (ℕ → Outcome QueryError Bytes) → QueryError → List ℕ → Outcome QueryError S
  unfolding read_status
  try_candidates net last [] = err last
  try_candidates net last (p ∷ ps) = try_turn (net p >>= read_status) (λ e. try_candidates net e ps)

  -- `detect_status_response`; without a candidate the error would be another.
  unfoldable pub detect_status_response : (ℕ → Outcome QueryError Bytes) → Outcome QueryError S
  unfolding try_candidates
  detect_status_response net = try_candidates net unreachable status_protocol_candidates
