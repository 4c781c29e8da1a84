-- ===== src/Examples/LanRuns.antt =====
-- Runs of the LAN broadcasters against discovery and the Bedrock probe, and of a status query.
use p2p_core.Base.{
  ok, ℕ, Option, [], arith, length, none, panic, refl, replicate, some, ◌++◌, ◌∷◌, ◌≡◌, ◌≤◌, List,
}
use p2p_core.Base.Words.{Bytes}
use p2p_core.Text.Utf8.{codes, ascii-IsUtf8}
use p2p_core.Discovery.{parse_raknet_pong, ping_packet, recv_into}
use p2p_core.Broadcaster.Combined.{start_combined}
use p2p_core.Broadcaster.Combined.Same.{or_silent, start_combined-same}
use p2p_core.Broadcaster.NetherNet.Task.{
  LanEvent, LanSockets, Sender, datagram, socket_error, stopped, start_nethernet,
}
use p2p_core.Manager.Sessions.{done, failed}
use p2p_core.Discovery.NetherNet.{
  Ciphers, nethernet_key, parse_nethernet, read_payload, read_reply, seal,
}
use p2p_core.Discovery.NetherNet.Sealed.{AreSound, read_reply-ragged, seal-opened}
use p2p_core.Broadcaster.{Room, answer, motd, split_slots}
use p2p_core.Broadcaster.Discovered.{IsPlain, slots_of, listed, room_discovered}
use p2p_core.Minecraft.Probe.{bedrock_ping, read_bedrock_pong, read_status}
use p2p_core.Minecraft.Probe.Answered.{read_status-framed, room_probed}
use p2p_core.Minecraft.{write_varint}
use p2p_core.Text.Numbers.{decimal, split}
use p2p_core.Minecraft.{pos}

abbrev room : Room
room = record {
  room_name = codes "Sky";
  host_name = codes "Ann";
  mc_version = codes "1.21";
  slots = codes "2/8";
  proxy_port = 40000;
}

room-IsPlain : IsPlain room
room-IsPlain = record {
  room_utf8 = ascii-IsUtf8 (codes "Sky") (omega arith);
  host_utf8 = ascii-IsUtf8 (codes "Ann") (omega arith);
  version_utf8 = ascii-IsUtf8 (codes "1.21") (omega arith);
  room_lacks = omega arith;
  host_lacks = omega arith;
  version_lacks = omega arith;
  port_u16 = omega arith;
}

room_slots : room.slots ≡ slots_of 2 8
unfolding decimal
room_slots = refl

room_text : length (motd room) ≤ 900
unfolding motd split_slots split decimal
room_text = omega arith

room_discovered_example :
    (reply : Bytes) × (answer room
        (recv_into 1024 (replicate 1024 0) (ping_packet 5)).0
        (recv_into 1024 (replicate 1024 0) (ping_packet 5)).1
      ≡ some reply)
    × (parse_raknet_pong (recv_into 2048 [] reply).0 (recv_into 2048 [] reply).1 19132
        ≡ some (listed room 2 8))
room_discovered_example =
    room_discovered room 2 8 5 19132 (replicate 1024 0) [] room-IsPlain room_slots (omega arith)
      (omega arith) (omega (arith, room_text))

room_probed_example :
    (answered : Bytes) × (answer room
        (recv_into 1024 (replicate 1024 0) (bedrock_ping 5)).0
        (recv_into 1024 (replicate 1024 0) (bedrock_ping 5)).1
      ≡ some answered)
    × (read_bedrock_pong (recv_into 1024 [] answered).0 (recv_into 1024 [] answered).1
        ≡ some (record {
          room_name = codes "Sky";
          host_name = codes "Sky";
          version = some (codes "1.21");
          online_players = 2;
          max_players = 8;
        }))
room_probed_example =
    room_probed room 2 8 5 (replicate 1024 0) [] room-IsPlain room_slots (omega arith) (omega arith)
      (omega (arith, room_text))

-- Ciphers that keep their promises: the blocks stay as they are, and every tag is the same.
abbrev plain_ciphers : Ciphers
plain_ciphers = record {
  hmac = λ key m. replicate 32 0;
  encrypt_block = λ key b. b;
  decrypt_block = λ key b. b;
  hex_encode = λ b. b;
  hex_decode = λ b. some b;
}

plain_ciphers-AreSound : AreSound plain_ciphers
plain_ciphers-AreSound = record {
  decrypts = λ key b h. refl;
  block_size = λ key b h. h;
  tag_size = λ key m. refl;
}

-- The length 4, then a packet that is no response.
seal-opened_example :
    (sealed : Bytes) × (seal plain_ciphers nethernet_key (4 ∷ 0 ∷ 0 ∷ 0 ∷ 7 ∷ 7 ∷ []) ≡ ok sealed)
    × (parse_nethernet plain_ciphers (recv_into 2048 [] sealed).0 (recv_into 2048 [] sealed).1 19132
        ≡ read_payload plain_ciphers (4 ∷ 0 ∷ 0 ∷ 0 ∷ 7 ∷ 7 ∷ []) 19132)
seal-opened_example =
    seal-opened plain_ciphers plain_ciphers-AreSound 4 0 19132 (0 ∷ 0 ∷ 7 ∷ 7 ∷ []) [] refl
      (omega arith)

read_reply-ragged_example : read_reply plain_ciphers (replicate 49 0) 49 19132 ≡ panic
read_reply-ragged_example =
    read_reply-ragged plain_ciphers 1 1 19132 49 (replicate 49 0) (unfold parse_raknet_pong in refl)
      (omega arith) (omega arith) (omega arith) (omega arith) (omega arith)

abbrev one_byte : Bytes → Option ℕ
one_byte [] = none
one_byte (b ∷ bs) = some b

read_status-framed_example :
    (head : Bytes) × (id : Bytes) × (len : Bytes) × (write_varint [] (pos 9) ≡ ok head)
    × (write_varint [] (pos 0) ≡ ok id)
    × (write_varint [] (pos 2) ≡ ok len)
    × (read_status one_byte (head ++ (id ++ (len ++ ((123 ∷ 125 ∷ []) ++ (1 ∷ []))))) ≡ ok 123)
read_status-framed_example =
    read_status-framed one_byte 9 (123 ∷ 125 ∷ []) (1 ∷ []) (omega arith) (omega arith)

abbrev second_socket : LanSockets
second_socket = record { fixed = failed "in use"; any_port = done tt; local_addr = done tt }

abbrev drawn : Sender
drawn = record { key = nethernet_key; sender_id = 7 }

abbrev asked : List LanEvent
asked = datagram 48 "1.2.3.4:5" ∷ datagram 8 "1.2.3.4:5" ∷ socket_error ∷ stopped ∷ []

start_combined-same_example :
    start_combined plain_ciphers second_socket drawn room asked
    ≡ or_silent (start_nethernet plain_ciphers second_socket drawn room asked)
start_combined-same_example = start_combined-same plain_ciphers second_socket drawn room asked refl
