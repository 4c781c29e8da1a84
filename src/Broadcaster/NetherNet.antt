-- ===== src/Broadcaster/NetherNet.antt =====
-- src/nethernet_broadcaster.rs, the sealed response in which a host's proxy describes itself.
pub mod Unread
pub mod Task
use p2p_core.Base.{
  ℕ, List, Option, [], if◌then◌else◌, length, none, replicate, some, ◌++◌, ◌+◌, ◌-◌, ◌==◌, ◌^◌, ◌∷◌,
}
use p2p_core.Base.Words.{Bytes, to_le, u8, u16, u32, u64}
use p2p_core.Text.Numbers.{parse_uint, split}
use p2p_core.Discovery.NetherNet.{Ciphers, Reading, seal}
use p2p_core.Discovery.{unwrap_or}

-- `text.parse::<i32>()` as the 32 bits of the number.
abbrev negative : Option ℕ → Option ℕ
negative none = none
negative (some n) = some (u32 (2 ^ 32 - n))

unsigned_digits : Bytes → Bytes → Option ℕ
unsigned_digits [] bs = none
unsigned_digits (b ∷ rest) bs = if b == b'+' then none else negative (parse_uint (2 ^ 31 + 1) bs)

unfoldable pub parse_i32 : Bytes → Option ℕ
unfolding unsigned_digits
parse_i32 [] = none
parse_i32 (b ∷ bs) = if b == b'-' then unsigned_digits bs bs else parse_uint (2 ^ 31) (b ∷ bs)

unfoldable pub players_or_default : List Bytes → ℕ × ℕ
unfolding parse_i32
players_or_default (players ∷ max_players ∷ []) =
    (unwrap_or (parse_i32 players) 0, unwrap_or (parse_i32 max_players) 30)
players_or_default other = (0, 30)

-- The fields of the application data. The lengths of the names are single bytes.
unfoldable pub server_data : Bytes → Bytes → Bytes → Bytes
unfolding players_or_default
server_data room_name host_name slots =
    let (players, max_players) = players_or_default (split b'/' slots) in
    4
    ∷ u8 (length room_name)
    ∷ (room_name
        ++ (u8 (length host_name)
            ∷ (host_name
                ++ (0 ∷ (to_le 4 players ++ (to_le 4 max_players ++ (0 ∷ 0 ∷ 4 ∷ 8 ∷ [])))))))

module _ (ciphers : Ciphers) where
  -- What the response seals.
  unfoldable pub response_payload : Bytes → ℕ → Bytes
  response_payload server_bytes sender_id =
      let hex_data = ciphers.hex_encode server_bytes in
      let app_data_buf = to_le 4 (u32 (length hex_data)) ++ hex_data in
      let packet_buf = to_le 2 1 ++ (to_le 8 (u64 sender_id) ++ (replicate 8 0 ++ app_data_buf)) in
      to_le 2 (u16 (length packet_buf)) ++ packet_buf

  unfoldable pub build_response_packet : Bytes → ℕ → Bytes → Bytes → Bytes → Reading Bytes
  unfolding response_payload server_data seal
  build_response_packet key sender_id room_name host_name slots =
      seal ciphers key (response_payload (server_data room_name host_name slots) sender_id)
