-- ===== src/Discovery.antt =====
-- src/discovery.rs, the RakNet part: the ping to a Bedrock server and what its pong tells. A text is
-- its bytes.
pub mod Framed
pub mod NetherNet
use p2p_core.Base.{
  ℕ, List, Option, [], drop, get_or, if◌then◌else◌, leb, length, ltb, none, replicate, some, take,
  ◌&&◌, ◌++◌, ◌==◌, ◌^◌, ◌∷◌,
}
use p2p_core.Base.Words.{Bytes, to_be, u64}
use p2p_core.Text.Utf8.{codes, from_utf8_lossy}
use p2p_core.Text.Numbers.{parse_uint, split}

pub record ServerInfo : Type 0 where
  pub name : Bytes
  pub host_name : Bytes
  pub mc_version : Bytes
  pub players : ℕ
  pub max_players : ℕ
  pub port : ℕ

abbrev pub unwrap_or {ℓ} : {A : Type ℓ} → Option A → A → A
unwrap_or none d = d
unwrap_or (some a) d = a

-- `a`, or `b` where `a` is empty.
abbrev pub unless_empty : Bytes → Bytes → Bytes
unless_empty [] b = b
unless_empty (c ∷ cs) b = c ∷ cs

-- The parts of the text of a pong.
unfoldable pub server_info : List Bytes → ℕ → ServerInfo
server_info parts default_port =
    let parsed_port =
      if ltb 10 (length parts)
      then unwrap_or (parse_uint (2 ^ 16) (get_or parts 10 [])) default_port
      else default_port in
    let host_name = get_or parts 1 [] in
    record {
      name = unless_empty (get_or parts 7 []) host_name;
      host_name = host_name;
      mc_version = get_or parts 3 [];
      players = unwrap_or (parse_uint (2 ^ 32) (get_or parts 4 (codes "0"))) 0;
      max_players = unwrap_or (parse_uint (2 ^ 32) (get_or parts 5 (codes "0"))) 0;
      port = parsed_port;
    }

-- `buf` is the whole buffer of the socket, never empty, and `len` the bytes of it that are new.
unfoldable pub parse_raknet_pong : Bytes → ℕ → ℕ → Option ServerInfo
unfolding server_info
parse_raknet_pong buf len default_port =
    if (get_or buf 0 0 == 0x1c) && ltb 35 len
    then (let parts = split b';' (from_utf8_lossy (drop 35 (take len buf))) in
        if leb 6 (length parts) then some (server_info parts default_port) else none)
    else none

abbrev pub raknet_magic : Bytes
raknet_magic =
    0x00 ∷ 0xff ∷ 0xff ∷ 0x00 ∷ 0xfe ∷ 0xfe ∷ 0xfe ∷ 0xfe ∷ 0xfd ∷ 0xfd ∷ 0xfd ∷ 0xfd ∷ 0x12 ∷ 0x34
    ∷ 0x56 ∷ 0x78 ∷ []

-- The ping that `discover_server_on_port` sends, by the clock's milliseconds.
unfoldable pub ping_packet : ℕ → Bytes
ping_packet now = 0x01 ∷ (to_be 8 (u64 now) ++ (raknet_magic ++ replicate 8 0))

-- `recv_from` into a buffer of `size` bytes: the buffer and the bytes received. What does not fit
-- is lost, and the rest of the buffer stays.
abbrev pub recv_into : ℕ → Bytes → Bytes → Bytes × ℕ
recv_into size buf datagram =
    (take size datagram ++ drop (length (take size datagram)) buf, length (take size datagram))

-- `listen_for_broadcasts` over what the socket gives before the deadline, `none` for an error.
unfoldable pub listen_loop : ℕ → Bytes → List (Option Bytes) → Option ServerInfo
unfolding parse_raknet_pong
listen_loop port buf [] = none
listen_loop port buf (none ∷ events) = listen_loop port buf events
listen_loop port buf (some datagram ∷ events) =
    let (buf', len) = recv_into 2048 buf datagram in
    let rest = listen_loop port buf' events in
    elim (parse_raknet_pong buf' len port) [ none ↦ rest | some info ↦ some info ]

unfoldable pub listen_for_broadcasts : ℕ → List (Option Bytes) → Option ServerInfo
unfolding listen_loop
listen_for_broadcasts port events = listen_loop port (replicate 2048 0) events
