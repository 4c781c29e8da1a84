-- ===== src/Broadcaster/Combined/Same.antt =====
-- The two broadcasters answer alike.
use p2p_core.Base.{◌≡◌, List, String, [], ap, length, refl, ℕ, ◌++◌, ◌∷◌, ap₂, inl, inr}
use p2p_core.Base.Words.{Bytes, to_le, u8}
use p2p_core.Discovery.NetherNet.{Ciphers, Reading, seal}
use p2p_core.Broadcaster.{Room}
use p2p_core.Broadcaster.NetherNet.{
  build_response_packet, players_or_default, response_payload, server_data,
}
use p2p_core.Broadcaster.NetherNet.Task.{
  LanEvent, LanSockets, Sender, datagram, socket_error, stopped, nethernet_loop, start_nethernet,
  answered,
}
use p2p_core.Broadcaster.Combined.{
  combined_packet, combined_loop, start_combined, combined_data, combined_payload, two_numbers,
}
use p2p_core.Text.Numbers.{split}
use p2p_core.Manager.Sessions.{Result, done, failed, Result-cases}

two_numbers-same : (parts : List Bytes) → two_numbers parts ≡ players_or_default parts
unfolding two_numbers players_or_default
two_numbers-same [] = refl
two_numbers-same (a ∷ []) = refl
two_numbers-same (a ∷ b ∷ []) = refl
two_numbers-same (a ∷ b ∷ c ∷ parts) = refl

combined_data-same : (r : Room) → combined_data r ≡ server_data r.room_name r.host_name r.slots
unfolding combined_data server_data
combined_data-same r =
    ap
      (λ (n : ℕ × ℕ).
        4
        ∷ u8 (length r.room_name)
        ∷ (r.room_name
            ++ (u8 (length r.host_name)
                ∷ (r.host_name ++ (0 ∷ (to_le 4 n.0 ++ (to_le 4 n.1 ++ (0 ∷ 0 ∷ 4 ∷ 8 ∷ []))))))))
      (two_numbers-same (split b'/' r.slots))

-- The answer of nethernet_broadcaster.rs.
abbrev packet : Sender → Room → Ciphers → Reading Bytes
packet s r ciphers = build_response_packet ciphers s.key s.sender_id r.room_name r.host_name r.slots

-- A failure to start as a task that answers nothing.
abbrev pub or_silent :
    Result (List (String × Reading Bytes)) → Result (List (String × Reading Bytes))
or_silent (done answers) = done answers
or_silent (failed e) = done []

module _ (ciphers : Ciphers) where
  combined_packet-same : (s : Sender) (r : Room) → combined_packet ciphers s r ≡ packet s r ciphers
  unfolding combined_packet combined_payload build_response_packet response_payload seal
  combined_packet-same s r = rw (combined_data-same r) refl

  combined_loop-same :
      (s : Sender) (r : Room) (es : List LanEvent)
      → combined_loop ciphers s r es ≡ nethernet_loop ciphers s r es
  unfolding combined_loop nethernet_loop
  combined_loop-same s r [] = refl
  combined_loop-same s r (datagram len addr ∷ es) =
      ap₂ (answered len addr) (combined_packet-same s r) (combined_loop-same s r es)
  combined_loop-same s r (socket_error ∷ es) = combined_loop-same s r es
  combined_loop-same s r (stopped ∷ es) = refl

  -- Where the local address can be read, the broadcaster of broadcaster.rs gives the same answers to the
  -- same datagrams as that of nethernet_broadcaster.rs, but where that one fails to start, it runs and
  -- answers nothing.
  pub start_combined-same :
      (net : LanSockets) (s : Sender) (r : Room) (es : List LanEvent)
      → net.local_addr ≡ done tt
      → start_combined ciphers net s r es ≡ or_silent (start_nethernet ciphers net s r es)
  unfolding start_combined start_nethernet
  start_combined-same net s r es h =
      let same = ap done (combined_loop-same s r es) in
      elim (Result-cases net.fixed) [
        | inl (u, f) ↦ rw (f, h) same
        | inr (e, f) ↦ elim (Result-cases net.any_port) [
          | inl (u, g) ↦ rw (f, g, h) same
          | inr (e', g) ↦ rw (f, g) refl
        ]
      ]
