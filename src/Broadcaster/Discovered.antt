-- ===== src/Broadcaster/Discovered.antt =====
-- src/bedrock_broadcaster.rs against src/discovery.rs: what discovery reads from the pong of a room.
use p2p_core.Discovery.{unless_empty, parse_raknet_pong, ping_packet, raknet_magic, recv_into}
use p2p_core.Base.{
  ℕ, List, [], arith, inl, refl, ◌++◌, ◌<◌, ◌^◌, ◌∷◌, ◌≡◌, inr, drop, length, some, take, take-all,
  ◌+◌, ◌≤◌, ap, ◌∙◌,
}
use p2p_core.Base.Words.{Bytes, to_be, u64}
use p2p_core.Text.Utf8.{
  codes, from_utf8_lossy, IsUtf8, append-IsUtf8, ascii-IsUtf8, ascii_then, from_utf8_lossy-IsUtf8,
}
use p2p_core.Text.Numbers.{
  decimal, split, Lacks, decimal-Lacks, split-append, split-single, decimal-IsUtf8,
  parse_uint-decimal, split_cons,
}
use p2p_core.Broadcaster.{Room, split_slots, motd, answer, pong}
use p2p_core.Discovery.{ServerInfo, server_info}
use p2p_core.Discovery.Framed.{parse_raknet_pong-framed}

-- The texts of a room can stand between semicolons.
pub record IsPlain (r : Room) : Type 0 where
  pub room_utf8 : IsUtf8 r.room_name
  pub host_utf8 : IsUtf8 r.host_name
  pub version_utf8 : IsUtf8 r.mc_version
  pub room_lacks : Lacks b';' r.room_name
  pub host_lacks : Lacks b';' r.host_name
  pub version_lacks : Lacks b';' r.mc_version
  pub port_u16 : r.proxy_port < 2 ^ 16

-- The text "2/8".
abbrev pub slots_of : ℕ → ℕ → Bytes
slots_of players max_players = decimal players ++ (b'/' ∷ decimal max_players)

split_slots-slots_of : (n m : ℕ) → split_slots (slots_of n m) ≡ (decimal n, decimal m)
unfolding split_slots
split_slots-slots_of n m =
    rw
      (
        split-append b'/' (decimal n) (decimal m) (decimal-Lacks b'/' n (inl (omega arith))),
        split-single b'/' (decimal m) (decimal-Lacks b'/' m (inl (omega arith))),
      )
      refl

abbrev motd_text : (room version players most host port : Bytes) → Bytes
motd_text room version players most host port =
    codes "MCPE;"
    ++ (room
        ++ (codes ";776;"
            ++ (version
                ++ (codes ";"
                    ++ (players
                        ++ (codes ";"
                            ++ (most
                                ++ (codes ";1234567890;"
                                    ++ (host
                                        ++ (codes ";Survival;1;"
                                            ++ (port ++ codes ";19133;")))))))))))

split-nil : split b';' [] ≡ [] ∷ []
unfolding split
split-nil = refl

module _ (room version players most host port : Bytes) where
  abbrev pub motd_parts : List Bytes
  motd_parts =
      codes "MCPE"
      ∷ room
      ∷ codes "776"
      ∷ version
      ∷ players
      ∷ most
      ∷ codes "1234567890"
      ∷ host
      ∷ codes "Survival"
      ∷ codes "1"
      ∷ port
      ∷ codes "19133"
      ∷ []
      ∷ []

  split-motd_text :
      Lacks b';' room
      → Lacks b';' version
      → Lacks b';' players
      → Lacks b';' most
      → Lacks b';' host
      → Lacks b';' port
      → split b';' (motd_text room version players most host port) ≡ motd_parts
  split-motd_text a b c d e f =
      let end =
        split_cons b';' port _ f (split_cons b';' (codes "19133") [] (omega arith) split-nil) in
      let mode =
        split_cons b';' (codes "Survival") _ (omega arith)
          (split_cons b';' (codes "1") _ (omega arith) end) in
      let named =
        split_cons b';' (codes "1234567890") _ (omega arith) (split_cons b';' host _ e mode) in
      let counted = split_cons b';' players _ c (split_cons b';' most _ d named) in
      let described =
        split_cons b';' (codes "776") _ (omega arith) (split_cons b';' version _ b counted) in
      split_cons b';' (codes "MCPE") _ (omega arith) (split_cons b';' room _ a described)

  motd_text-IsUtf8 :
      IsUtf8 room
      → IsUtf8 version
      → IsUtf8 players
      → IsUtf8 most
      → IsUtf8 host
      → IsUtf8 port
      → IsUtf8 (motd_text room version players most host port)
  motd_text-IsUtf8 a b c d e f =
      let end =
        append-IsUtf8 port (codes ";19133;") f (ascii-IsUtf8 (codes ";19133;") (omega arith)) in
      let named = append-IsUtf8 host _ e (ascii_then (codes ";Survival;1;") _ (omega arith) end) in
      let maximal =
        append-IsUtf8 most _ d (ascii_then (codes ";1234567890;") _ (omega arith) named) in
      let counted = append-IsUtf8 players _ c (ascii_then (codes ";") _ (omega arith) maximal) in
      let described = append-IsUtf8 version _ b (ascii_then (codes ";") _ (omega arith) counted) in
      ascii_then (codes "MCPE;") _ (omega arith)
        (append-IsUtf8 room _ a (ascii_then (codes ";776;") _ (omega arith) described))

-- What discovery is to know of the room.
abbrev pub listed : Room → ℕ → ℕ → ServerInfo
listed r players max_players = record {
  name = unless_empty r.host_name r.room_name;
  host_name = r.room_name;
  mc_version = r.mc_version;
  players = players;
  max_players = max_players;
  port = r.proxy_port;
}

module _ (r : Room) (n m : ℕ) (plain : IsPlain r) (slots : r.slots ≡ slots_of n m) where
  motd-motd_text :
      motd r
      ≡ motd_text r.room_name r.mc_version
          (decimal n)
          (decimal m)
          r.host_name
          (decimal r.proxy_port)
  unfolding motd
  motd-motd_text = rw (slots, split_slots-slots_of n m) refl

  pub split-motd :
      split b';' (from_utf8_lossy (motd r))
      ≡ motd_parts r.room_name r.mc_version
          (decimal n)
          (decimal m)
          r.host_name
          (decimal r.proxy_port)
  split-motd =
      let text =
        motd_text-IsUtf8 r.room_name r.mc_version (decimal n) (decimal m) r.host_name
          (decimal r.proxy_port) plain.room_utf8 plain.version_utf8 (decimal-IsUtf8 n)
          (decimal-IsUtf8 m) plain.host_utf8 (decimal-IsUtf8 r.proxy_port) in
      let lacks = λ (k : ℕ). decimal-Lacks b';' k (inr (omega arith)) in
      rw (motd-motd_text, from_utf8_lossy-IsUtf8 _ text)
        (split-motd_text r.room_name r.mc_version (decimal n) (decimal m) r.host_name
          (decimal r.proxy_port) plain.room_lacks plain.version_lacks (lacks n) (lacks m)
          plain.host_lacks (lacks r.proxy_port))

  server_info-motd :
      n < 2 ^ 32
      → m < 2 ^ 32
      → (default_port : ℕ)
      → server_info
          (motd_parts r.room_name r.mc_version
            (decimal n)
            (decimal m)
            r.host_name
            (decimal r.proxy_port))
          default_port
        ≡ listed r n m
  unfolding server_info
  server_info-motd h k default_port =
      rw
        (
          parse_uint-decimal (2 ^ 16) r.proxy_port plain.port_u16
              (let p = plain.port_u16 in omega arith),
          parse_uint-decimal (2 ^ 32) n h (omega arith),
          parse_uint-decimal (2 ^ 32) m k (omega arith),
        )
        refl

pub motd_some : (r : Room) → 0 < length (motd r)
unfolding motd
motd_some r = omega arith

pong_header : Room → Bytes → Bytes
pong_header r ping_time =
    ping_time ++ (to_be 8 1234567890 ++ (raknet_magic ++ to_be 2 (length (motd r))))

-- The ping that discovery sends is answered by a pong with its time.
pub answer-ping_packet :
    (r : Room) (now : ℕ) (buf : Bytes)
    → answer r (recv_into 1024 buf (ping_packet now)).0 (recv_into 1024 buf (ping_packet now)).1
      ≡ some (pong r (to_be 8 (u64 now)))
unfolding answer ping_packet
answer-ping_packet r now buf = refl

pub length-pong : (r : Room) (now : ℕ) → length (pong r (to_be 8 (u64 now))) ≡ 35 + length (motd r)
unfolding pong
length-pong r now = omega arith

-- Discovery's ping to a room is answered, and the pong tells discovery the room's name, its host (the room again where it has no name), its version, its players, its most players and its port. The texts are UTF-8 without semicolons, the slots read "players/most" of 32 bits, and the pong fits the buffer of 2048 bytes.
pub room_discovered :
    (r : Room) (n m now port : ℕ) (buf buf' : Bytes)
    → IsPlain r
    → r.slots ≡ slots_of n m
    → n < 2 ^ 32
    → m < 2 ^ 32
    → length (motd r) ≤ 2013
    → (reply : Bytes) × (answer r
          (recv_into 1024 buf (ping_packet now)).0
          (recv_into 1024 buf (ping_packet now)).1
        ≡ some reply)
      × (parse_raknet_pong (recv_into 2048 buf' reply).0 (recv_into 2048 buf' reply).1 port
          ≡ some (listed r n m))
room_discovered r n m now port buf buf' plain slots small most short =
    let reply = pong r (to_be 8 (u64 now)) in
    let fits : take 2048 reply ≡ reply = take-all 2048 reply (omega (arith, length-pong r now)) in
    let texts = split-motd r n m plain slots in
    let framed =
      parse_raknet_pong-framed 0x1c (pong_header r (to_be 8 (u64 now))) (motd r)
        (drop (length reply) buf') port refl (unfold pong_header in refl) (motd_some r)
        (rw texts refl) in
    let read =
      framed
      ∙ ap (λ parts. some (server_info parts port)) texts
      ∙ ap some (server_info-motd r n m plain slots small most port) in
    (reply, answer-ping_packet r now buf, rw fits (unfold pong pong_header in read))
