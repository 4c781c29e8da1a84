-- ===== src/Relay/Pumps.antt =====
-- src/wss_relay.rs: `pump_reader_to_ws` and `pump_channel_to_writer`, the tasks of one stream.
use p2p_core.Base.{nat_key, ℕ, Bool, List, Option, [], false, none, remove, some, true, ◌++◌, ◌∷◌}
use p2p_core.Relay.{Zstd, encode_frame, frame_close, encode_data_frame_maybe_compressed}
use p2p_core.Relay.Host.{Session, send, binary}
use p2p_core.Base.Words.{Bytes}

-- What `reader.read` gives, or the other arm of the `select!`. A chunk is at most the buffer's
-- 16 KiB; an empty one is the end of the input. The Bool is whether the WebSocket's queue still has
-- a reader, without which each send fails.
pub data Read : Type 0 where
  chunk : Bytes → Bool → Read
  failed cancelled : Read

abbrev pub finish : ℕ → Session → Session
finish id s =
    let closed = send (binary (encode_frame frame_close id [])) s in
    record closed { streams = remove id closed.streams }

-- The send of CLOSE fails as the one before it did.
abbrev pub finish_closed : ℕ → Session → Session
finish_closed id s = record s { streams = remove id s.streams }

unfoldable pub pump_reader_to_ws : Zstd → ℕ → List Read → Session → Session
pump_reader_to_ws zstd id [] s = finish id s
pump_reader_to_ws zstd id (failed ∷ rs) s = finish id s
pump_reader_to_ws zstd id (cancelled ∷ rs) s = finish id s
pump_reader_to_ws zstd id (chunk [] o ∷ rs) s = finish id s
pump_reader_to_ws zstd id (chunk (b ∷ bs) false ∷ rs) s = finish_closed id s
pump_reader_to_ws zstd id (chunk (b ∷ bs) true ∷ rs) s =
    pump_reader_to_ws zstd id rs
      (send (binary (encode_data_frame_maybe_compressed zstd id (b ∷ bs))) s)

-- What `rx.recv()` gives, with whether `write_all` of it succeeds. `none` is a closed channel or
-- a cancelled task.
abbrev pub Received : Type 0
Received = Option (Bytes × Bool)

-- The payloads written whole before the socket is shut down.
unfoldable pub pump_channel_to_writer :
    ℕ → List Received → List Bytes → Session → List Bytes × Session
pump_channel_to_writer id [] out s = (out, finish_closed id s)
pump_channel_to_writer id (none ∷ rs) out s = (out, finish_closed id s)
pump_channel_to_writer id (some (p, false) ∷ rs) out s = (out, finish_closed id s)
pump_channel_to_writer id (some (p, true) ∷ rs) out s =
    pump_channel_to_writer id rs (out ++ (p ∷ [])) s
