-- ===== src/Examples/VarintRuns.antt =====
-- The VarInts of src/minecraft.rs at concrete numbers.
use p2p_core.Base.{[], arith, err, length, ok, refl, ◌++◌, ◌∷◌, ◌≡◌, ◌≤◌}
use p2p_core.Base.Words.{Bytes}
use p2p_core.Minecraft.{
  pos, negsuc, build_handshake_packet, negative, write_loop, write_varint, read_loop, read_varint,
  too_long,
}
use p2p_core.Minecraft.Varint.{read_varint-write_varint}

read_varint-write_varint_example :
    (bytes : Bytes) × (write_varint (0 ∷ []) (pos 25565) ≡ ok ((0 ∷ []) ++ bytes))
    × (length bytes ≤ 5)
    × (read_varint (bytes ++ (9 ∷ [])) ≡ ok (pos 25565, 9 ∷ []))
read_varint-write_varint_example = read_varint-write_varint 25565 (0 ∷ []) (9 ∷ []) (omega arith)

port_bytes : write_varint [] (pos 25565) ≡ ok (221 ∷ 199 ∷ 1 ∷ [])
unfolding write_varint write_loop
port_bytes = refl

minus_one : read_varint (255 ∷ 255 ∷ 255 ∷ 255 ∷ 15 ∷ []) ≡ ok (negsuc 0, [])
unfolding read_varint read_loop
minus_one = refl

six_bytes : read_varint (128 ∷ 128 ∷ 128 ∷ 128 ∷ 128 ∷ 0 ∷ []) ≡ err too_long
unfolding read_varint read_loop
six_bytes = refl

handshake :
    build_handshake_packet (104 ∷ []) 25565 (pos 47) ≡ ok (7 ∷ 0 ∷ 47 ∷ 1 ∷ 104 ∷ 99 ∷ 221 ∷ 1 ∷ [])
unfolding build_handshake_packet write_varint write_loop
handshake = refl

no_negative : build_handshake_packet [] 25565 (negsuc 0) ≡ err negative
unfolding build_handshake_packet write_varint
no_negative = refl
