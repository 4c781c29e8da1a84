-- ===== src/Broadcaster.antt =====
-- src/bedrock_broadcaster.rs, the pong by which a host's proxy shows in the list of LAN games. A
-- text is its bytes.
pub mod Discovered
pub mod NetherNet
pub mod Combined
use p2p_core.Base.{
  ℕ, List, Option, [], drop, get_or, if◌then◌else◌, length, ltb, none, some, take, ◌&&◌, ◌++◌, ◌==◌,
  ◌||◌, ◌∷◌,
}
use p2p_core.Base.Words.{Bytes, to_be}
use p2p_core.Text.Utf8.{codes}
use p2p_core.Text.Numbers.{decimal, split}
use p2p_core.Discovery.{raknet_magic, recv_into}

-- The arguments of `BedrockBroadcaster::start`.
pub record Room : Type 0 where
  pub room_name : Bytes
  pub host_name : Bytes
  pub mc_version : Bytes
  pub slots : Bytes
  pub proxy_port : ℕ

-- The players and the most players of a text such as "2/8".
pair_or_default : List Bytes → Bytes × Bytes
pair_or_default (players ∷ max_players ∷ []) = (players, max_players)
pair_or_default other = (codes "0", codes "30")

unfoldable pub split_slots : Bytes → Bytes × Bytes
unfolding pair_or_default
split_slots slots = pair_or_default (split b'/' slots)

unfoldable pub motd : Room → Bytes
motd r =
    codes "MCPE;"
    ++ (r.room_name
        ++ (codes ";776;"
            ++ (r.mc_version
                ++ (codes ";"
                    ++ ((split_slots r.slots).0
                        ++ (codes ";"
                            ++ ((split_slots r.slots).1
                                ++ (codes ";1234567890;"
                                    ++ (r.host_name
                                        ++ (codes ";Survival;1;"
                                            ++ (decimal r.proxy_port ++ codes ";19133;")))))))))))

unfoldable pub pong : Room → Bytes → Bytes
pong r ping_time =
    0x1c
    ∷ (ping_time ++ (to_be 8 1234567890 ++ (raknet_magic ++ (to_be 2 (length (motd r)) ++ motd r))))

-- The answer to what stands in the buffer: none unless it is an unconnected ping.
unfoldable pub answer : Room → Bytes → ℕ → Option Bytes
answer r buf len =
    if ltb 17 len && ((get_or buf 0 0 == 1) || (get_or buf 0 0 == 2))
    then some (pong r (take 8 (drop 1 buf)))
    else none

pub data Event : Type 0 where
  received : Bytes → Event
  failed : Event
  cancelled : Event

abbrev send : Option Bytes → List Bytes → List Bytes
send none sent = sent
send (some datagram) sent = datagram ∷ sent

-- The loop of the task: the datagrams sent until it is cancelled.
unfoldable pub broadcast_loop : Room → Bytes → List Event → List Bytes
broadcast_loop r buf [] = []
broadcast_loop r buf (received datagram ∷ events) =
    let (buf', len) = recv_into 1024 buf datagram in
    send (answer r buf' len) (broadcast_loop r buf' events)
broadcast_loop r buf (failed ∷ events) = broadcast_loop r buf events
broadcast_loop r buf (cancelled ∷ events) = []
