-- ===== src/Broadcaster/Combined.antt =====
-- src/broadcaster.rs: a second broadcaster of NetherNet responses, which repeats the code of
-- src/nethernet_broadcaster.rs and starts its sockets inside its task.
pub mod Same
use p2p_core.Base.{ℕ, List, String, [], length, ok, replicate, ◌%◌, ◌++◌, ◌-◌, ◌>>=◌, ◌∷◌}
use p2p_core.Base.Words.{Bytes, to_le, u8, u16, u32, u64}
use p2p_core.Text.Numbers.{split}
use p2p_core.Discovery.{unwrap_or}
use p2p_core.Discovery.NetherNet.{Ciphers, Reading, on_chunks}
use p2p_core.Broadcaster.{Room}
use p2p_core.Broadcaster.NetherNet.{parse_i32}
use p2p_core.Broadcaster.NetherNet.Task.{
  answered, LanEvent, LanSockets, Sender, datagram, socket_error, stopped,
}
use p2p_core.Manager.Sessions.{Result, done, failed}

unfoldable pub two_numbers : List Bytes → ℕ × ℕ
unfolding parse_i32
two_numbers (players ∷ max_players ∷ []) =
    (unwrap_or (parse_i32 players) 0, unwrap_or (parse_i32 max_players) 30)
two_numbers other = (0, 30)

unfoldable pub combined_data : Room → Bytes
unfolding two_numbers
combined_data r =
    let (players, max_players) = two_numbers (split b'/' r.slots) in
    4
    ∷ u8 (length r.room_name)
    ∷ (r.room_name
        ++ (u8 (length r.host_name)
            ∷ (r.host_name
                ++ (0 ∷ (to_le 4 players ++ (to_le 4 max_players ++ (0 ∷ 0 ∷ 4 ∷ 8 ∷ [])))))))

module _ (ciphers : Ciphers) where
  unfoldable pub combined_payload : Sender → Room → Bytes
  unfolding combined_data
  combined_payload s r =
      let hex_data = ciphers.hex_encode (combined_data r) in
      let packet_buf =
        to_le 2 1
        ++ (to_le 8 (u64 s.sender_id)
            ++ (replicate 8 0 ++ (to_le 4 (u32 (length hex_data)) ++ hex_data))) in
      to_le 2 (u16 (length packet_buf)) ++ packet_buf

  -- The payload is padded to whole blocks, each block is encrypted, and the tag comes first.
  unfoldable pub combined_packet : Sender → Room → Reading Bytes
  combined_packet s r =
      let payload = combined_payload s r in
      let pad_len = 16 - length payload % 16 in
      let padded = payload ++ replicate pad_len pad_len in
      on_chunks (length padded) (ciphers.encrypt_block s.key) padded >>= λ encrypted.
      ok (ciphers.hmac s.key payload ++ encrypted)

  unfoldable pub combined_loop : Sender → Room → List LanEvent → List (String × Reading Bytes)
  combined_loop s r [] = []
  combined_loop s r (datagram len addr ∷ es) =
      answered len addr (combined_packet s r) (combined_loop s r es)
  combined_loop s r (socket_error ∷ es) = combined_loop s r es
  combined_loop s r (stopped ∷ es) = []

  -- `Broadcasters::start` never fails: without a socket the task ends and answers nothing.
  unfoldable pub start_combined :
      LanSockets → Sender → Room → List LanEvent → Result (List (String × Reading Bytes))
  unfolding combined_loop
  start_combined net s r es = elim net.fixed [
    | done u ↦ done (combined_loop s r es)
    | failed e ↦ elim net.any_port [ done u ↦ done (combined_loop s r es) | failed e' ↦ done [] ]
  ]
