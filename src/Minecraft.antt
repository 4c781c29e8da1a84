-- ===== src/Minecraft.antt =====
-- src/minecraft.rs: the VarInts of a Minecraft status query, `write_varint` and `read_varint`, and
-- the handshake packet.
pub mod Varint
pub mod Probe
pub mod Ports
pub mod Nickname
pub mod Players
pub mod Preflight
pub mod Sources
pub mod Detection
pub mod TextFile
pub mod Runtime
use p2p_core.Base.{
  ℕ, bit_or, Outcome, [], err, if◌then◌else◌, leb, length, ltb, ok, out_of_fuel, suc, zero, ◌%◌,
  ◌*◌, ◌++◌, ◌+◌, ◌-◌, ◌/◌, ◌==◌, ◌>>=◌, ◌^◌, ◌∷◌,
}
use p2p_core.Base.Words.{Bytes, u8, u32, to_be}

-- An `i32`, with its bounds left to the places that use it.
pub data ℤ : Type 0 where
  pos negsuc : ℕ → ℤ

pub data VarintError : Type 0 where
  negative too_long end_of_stream : VarintError

-- `value & !0x7F == 0` is a number without digits above the low seven; a u32 has at most five groups
-- of seven digits.
unfoldable pub write_loop : ℕ → ℕ → Bytes → Outcome VarintError Bytes
write_loop zero value buffer = out_of_fuel
write_loop (suc fuel) value buffer =
    let rest = write_loop fuel (value / 128) (buffer ++ (bit_or (value % 128) 0x80 ∷ [])) in
    if value / 128 == 0 then ok (buffer ++ (u8 value ∷ [])) else rest

unfoldable pub write_varint : Bytes → ℤ → Outcome VarintError Bytes
write_varint buffer (pos value) = write_loop 5 value buffer
write_varint buffer (negsuc n) = err negative

-- The digits of an `i32` as a number.
abbrev pub to_i32 : ℕ → ℤ
to_i32 n = if ltb n (2 ^ 31) then pos n else negsuc (2 ^ 32 - n - 1)

-- The stream is the bytes that are still to be read; the shift drops the digits above the 32nd.
unfoldable pub read_loop : ℕ → ℕ → Bytes → Outcome VarintError (ℤ × Bytes)
read_loop value position [] = if leb 35 position then err too_long else err end_of_stream
read_loop value position (byte ∷ stream) =
    let more = bit_or value (u32 (byte % 128 * 2 ^ position)) in
    let rest = read_loop more (position + 7) stream in
    if leb 35 position
    then err too_long
    else if byte / 128 % 2 == 0
    then ok (to_i32 more, stream)
    else rest

unfoldable pub read_varint : Bytes → Outcome VarintError (ℤ × Bytes)
read_varint stream = read_loop 0 0 stream

-- `host` is the bytes of the host's name.
unfoldable pub build_handshake_packet : Bytes → ℕ → ℤ → Outcome VarintError Bytes
build_handshake_packet host port protocol_version = do
  version ← write_varint (0 ∷ []) protocol_version
  size ← write_varint version (to_i32 (u32 (length host)))
  packet ← write_varint (size ++ (host ++ to_be 2 port)) (pos 1)
  framed ← write_varint [] (to_i32 (u32 (length packet)))
  ok (framed ++ packet)
