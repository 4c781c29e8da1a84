-- ===== src/StunProbe.antt =====
-- src/stun.rs: the NAT type probe. It has a STUN parser of its own, over a receive buffer of 512
-- bytes, and judges the NAT by the answers of the first two servers.
pub mod Parse
pub mod Agreement
pub mod Nat
use p2p_core.Base.{
  ℕ, Option, Outcome, [], bit_xor, err, if◌then◌else◌, index, leb, length, ltb, min, none, not, ok,
  out_of_fuel, replicate, some, suc, take, zero, ◌%◌, ◌&&◌, ◌++◌, ◌+◌, ◌-◌, ◌/◌, ◌==◌, ◌>>=◌, ◌^◌,
  ◌∷◌,
}
use p2p_core.Base.Words.{Bytes, from_be}
use p2p_core.Signaling.{
  StunError, short_response, unexpected_type, transaction_mismatch, no_mapped_address, same_bytes,
  slice, stun_magic, u16_at,
}
use p2p_core.Net.{SocketAddr, v4, IpAddr}

-- `Ipv4Addr::from(u32)`
abbrev pub ipv4_of : ℕ → IpAddr
ipv4_of n = v4 (n / 2 ^ 24 % 256) (n / 2 ^ 16 % 256) (n / 2 ^ 8 % 256) (n % 256)

-- `Some` is the `return Ok` of a matching attribute, `None` goes on to the next.
unfoldable pub xor_mapped : Bytes → ℕ → ℕ → ℕ → Outcome StunError (Option SocketAddr)
xor_mapped buf attr_type attr_len attr_start =
    if attr_type == 0x0020 && leb 8 attr_len
    then (do
      family ← index buf (attr_start + 1)
      if family == 0x01
          then (do
            port ← u16_at buf (attr_start + 2)
            a ← index buf (attr_start + 4)
            b ← index buf (attr_start + 5)
            c ← index buf (attr_start + 6)
            d ← index buf (attr_start + 7)
            ok (
                some (record {
                  ip = ipv4_of (bit_xor (from_be (a ∷ b ∷ c ∷ d ∷ [])) stun_magic);
                  port = bit_xor port (stun_magic / 2 ^ 16);
                })))
          else ok none)
    else ok none

unfoldable pub mapped : Bytes → ℕ → ℕ → ℕ → Outcome StunError (Option SocketAddr)
mapped buf attr_type attr_len attr_start =
    if attr_type == 0x0001 && leb 8 attr_len
    then (do
      family ← index buf (attr_start + 1)
      if family == 0x01
          then (do
            port ← u16_at buf (attr_start + 2)
            a ← index buf (attr_start + 4)
            b ← index buf (attr_start + 5)
            c ← index buf (attr_start + 6)
            d ← index buf (attr_start + 7)
            ok (some (record { ip = v4 a b c d; port = port })))
          else ok none)
    else ok none

-- The body of the loop between the length check and the step to the next attribute.
unfoldable pub probe_attribute : Bytes → ℕ → ℕ → ℕ → Outcome StunError (Option SocketAddr)
probe_attribute buf attr_type attr_len attr_start = do
  found ← xor_mapped buf attr_type attr_len attr_start
  elim found [ some a ↦ ok (some a) | none ↦ mapped buf attr_type attr_len attr_start ]

unfoldable pub probe_loop : ℕ → Bytes → ℕ → ℕ → Outcome StunError SocketAddr
probe_loop zero buf attrs_end offset = out_of_fuel
probe_loop (suc fuel) buf attrs_end offset =
    if leb (offset + 4) attrs_end
    then (do
      attr_type ← u16_at buf offset
      attr_len ← u16_at buf (offset + 2)
      let attr_start = offset + 4
      let attr_end = attr_start + attr_len
      if ltb attrs_end attr_end then err no_mapped_address else do
        found ← probe_attribute buf attr_type attr_len attr_start
        elim found [
          | some addr ↦ ok addr
          | none ↦ probe_loop fuel buf attrs_end (attr_end + (4 - attr_len % 4) % 4)
        ])
    else err no_mapped_address

-- The reply of `len` bytes that stands in the buffer; `tx_id` is the id of the request.
unfoldable pub parse_reply : Bytes → Bytes → ℕ → Outcome StunError SocketAddr
parse_reply tx_id buf len = if ltb len 20 then err short_response else do
  msg_type ← u16_at buf 0
  if not (msg_type == 0x0101) then err unexpected_type else do
    theirs ← slice buf 8 20
    if not (same_bytes theirs tx_id)
        then err transaction_mismatch
        else do attrs_len ← u16_at buf 2; probe_loop len buf (min (20 + attrs_len) len) 20

abbrev pub recv_buffer : ℕ
recv_buffer = 512

-- `recv_from(&mut [0u8; 512])`: what fits of the packet, and zeros behind it.
abbrev pub received : Bytes → Bytes
received packet = take recv_buffer packet ++ replicate (recv_buffer - length packet) 0
