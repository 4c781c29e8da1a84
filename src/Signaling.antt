-- ===== src/Signaling.antt =====
-- src/signaling.rs: the STUN binding exchange that finds the public address of a UDP socket.
-- A packet is a list of bytes. An index or a slice out of range panics; the parser's loop takes
-- fuel, and every call gives it the length of the packet.
pub mod Attributes
pub mod Parse
pub mod Answer
pub mod RoundTrip
pub mod Punch
pub mod Discover
use p2p_core.Base.{
  ℕ, zero, suc, ◌+◌, ◌-◌, ◌*◌, ◌/◌, bit_xor, Bool, not, [], ◌∷◌, ◌++◌, Option, none, some, Outcome,
  ok, err, panic, out_of_fuel, ◌>>=◌, index, length, take, drop, ltb, leb, ◌==◌, if◌then◌else◌,
  false, true, ◌^◌,
}
use p2p_core.Base.Words.{Bytes, from_be, to_be}
use p2p_core.Net.{SocketAddr, v4}

pub data StunError : Type 0 where
  short_response : StunError
  unexpected_type : StunError
  transaction_mismatch : StunError
  no_mapped_address : StunError

abbrev pub stun_magic : ℕ
stun_magic = 0x2112_a442

-- `&payload[start..stop]`, which panics unless start ≤ stop ≤ len.
abbrev pub slice : Bytes → ℕ → ℕ → Outcome StunError Bytes
slice xs start stop =
    if leb start stop
    then (if leb stop (length xs) then ok (take (stop - start) (drop start xs)) else panic)
    else panic

-- `u16::from_be_bytes([payload[i], payload[i + 1]])`
abbrev pub u16_at : Bytes → ℕ → Outcome StunError ℕ
u16_at xs i = do a ← index xs i; b ← index xs (i + 1); ok (from_be (a ∷ b ∷ []))

-- `tx` is the first twelve bytes of a fresh UUID.
unfoldable pub build_stun_binding_request : Bytes → Bytes
build_stun_binding_request tx = 0 ∷ 1 ∷ 0 ∷ 0 ∷ to_be 4 stun_magic ++ take 12 tx

unfoldable pub parse_xor_mapped_address : Bytes → Outcome StunError (Option SocketAddr)
parse_xor_mapped_address value = if ltb (length value) 8 then ok none else do
  family ← index value 1
  if not (family == 1) then ok none else do
    port ← u16_at value 2
    a ← index value 4
    b ← index value 5
    c ← index value 6
    d ← index value 7
    ok (
        some (record {
          ip = v4 (bit_xor a 0x21) (bit_xor b 0x12) (bit_xor c 0xa4) (bit_xor d 0x42);
          port = bit_xor port (stun_magic / 2 ^ 16);
        }))

unfoldable pub parse_mapped_address : Bytes → Outcome StunError (Option SocketAddr)
parse_mapped_address value = if ltb (length value) 8 then ok none else do
  family ← index value 1
  if not (family == 1) then ok none else do
    port ← u16_at value 2
    a ← index value 4
    b ← index value 5
    c ← index value 6
    d ← index value 7
    ok (some (record { ip = v4 a b c d; port = port }))

-- The `match attr_type` of the loop; `none` goes on to the next attribute.
unfoldable pub match_attribute : ℕ → Bytes → Outcome StunError (Option SocketAddr)
unfolding parse_xor_mapped_address parse_mapped_address
match_attribute attr_type value =
    if attr_type == 0x0020
    then parse_xor_mapped_address value
    else if attr_type == 0x0001
    then parse_mapped_address value
    else ok none

abbrev pub next_multiple_of_4 : ℕ → ℕ
next_multiple_of_4 n = (n + 3) / 4 * 4

unfoldable pub attribute_loop : ℕ → Bytes → ℕ → Outcome StunError SocketAddr
attribute_loop zero payload offset = out_of_fuel
attribute_loop (suc fuel) payload offset =
    if leb (offset + 4) (length payload)
    then (do
      attr_type ← u16_at payload offset
      attr_len ← u16_at payload (offset + 2)
      let value_start = offset + 4
      let value_end = value_start + attr_len
      if ltb (length payload) value_end then err no_mapped_address else do
        value ← slice payload value_start value_end
        found ← match_attribute attr_type value
        elim found [
          | some addr ↦ ok addr
          | none ↦ attribute_loop fuel payload (next_multiple_of_4 value_end)
        ])
    else err no_mapped_address

-- `a[..] != b[..]` on byte strings
abbrev pub same_bytes : Bytes → Bytes → Bool
same_bytes [] [] = Bool.true
same_bytes (x ∷ xs) (y ∷ ys) = if x == y then same_bytes xs ys else Bool.false
same_bytes _ _ = Bool.false

unfoldable pub parse_stun_binding_response : Bytes → Bytes → Outcome StunError SocketAddr
unfolding attribute_loop
parse_stun_binding_response request payload =
    if ltb (length payload) 20 then err short_response else do
      kind ← u16_at payload 0
      if not (kind == 0x0101) then err unexpected_type else do
        theirs ← slice payload 8 20
        ours ← slice request 8 20
        if not (same_bytes theirs ours)
            then err transaction_mismatch
            else attribute_loop (length payload) payload 20
