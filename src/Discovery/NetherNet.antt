-- ===== src/Discovery/NetherNet.antt =====
-- src/discovery.rs, the NetherNet part: the sealed ping, and what a datagram that is no pong tells.
-- The ciphers (`aes`, `hmac`, `hex`) are a parameter.
mod Chunks
pub mod Sealed
use p2p_core.Base.{
  ◌>>◌, ℕ, Bool, List, Option, Outcome, [], drop, err, false, if◌then◌else◌, index, leb, length,
  none, ok, ok_or, out_of_fuel, panic, replicate, some, suc, take, true, zero, ◌%◌, ◌&&◌, ◌++◌, ◌+◌,
  ◌-◌, ◌==◌, ◌>>=◌, ◌∷◌,
}
use p2p_core.Base.Words.{Bytes, to_le, from_le, u64}
use p2p_core.Text.Utf8.{codes, from_utf8_lossy}
use p2p_core.Text.Numbers.{decimal}
use p2p_core.Discovery.{ServerInfo, unless_empty, parse_raknet_pong, recv_into}

-- The functions of the crates: HMAC-SHA256 of a message under a key, AES-256 of one block of 16
-- bytes under a key, hexadecimal text.
pub record Ciphers : Type 0 where
  pub hmac : Bytes → Bytes → Bytes
  pub encrypt_block : Bytes → Bytes → Bytes
  pub decrypt_block : Bytes → Bytes → Bytes
  pub hex_encode : Bytes → Bytes
  pub hex_decode : Bytes → Option Bytes

abbrev pub nethernet_key : Bytes
nethernet_key = codes "Z0B2h4v8j1o7h4l3n8f9d0c4a1p6g5h3"

-- Why a datagram is passed over.
pub data Skip : Type 0 where
  skip : Skip

abbrev pub Reading {ℓ} : Type ℓ → Type ℓ
Reading A = Outcome Skip A

-- `&xs[p..p + n]`, after the test that it is there.
abbrev pub slice : ℕ → ℕ → Bytes → Reading Bytes
slice p n xs = if leb (p + n) (length xs) then ok (take n (drop p xs)) else err skip

abbrev pub check : Bool → Reading (Unit {0})
check true = ok tt
check false = err skip

abbrev pub same_bytes : Bytes → Bytes → Bool
same_bytes [] [] = true
same_bytes [] (c ∷ cs) = false
same_bytes (b ∷ bs) [] = false
same_bytes (b ∷ bs) (c ∷ cs) = (b == c) && same_bytes bs cs

-- `chunks_mut(16)` with the block function on each; a last chunk that is shorter makes its
-- conversion to a block panic. `rounds` bounds the chunks.
unfoldable pub on_chunks : ℕ → (Bytes → Bytes) → Bytes → Reading Bytes
on_chunks rounds f [] = ok []
on_chunks zero f (b ∷ bs) = out_of_fuel
on_chunks (suc rounds) f (b ∷ bs) =
    let others = on_chunks rounds f (drop 16 (b ∷ bs)) in
    if length (take 16 (b ∷ bs)) == 16
    then (others >>= (λ rest. ok (f (take 16 (b ∷ bs)) ++ rest)))
    else panic

-- The fields of the application data.
unfoldable pub read_app_data : Bytes → ℕ → Reading ServerInfo
read_app_data app_data port = do
  version_byte ← slice 0 1 app_data
  sn_len ← slice 1 2 app_data
  let p = 3 + from_le sn_len
  host_bytes ← slice 3 (from_le sn_len) app_data
  ln_len ← slice p 2 app_data
  let q = p + 2 + from_le ln_len
  level_bytes ← slice (p + 2) (from_le ln_len) app_data
  game_type ← slice q 1 app_data
  players ← slice (q + 1) 4 app_data
  max_players ← slice (q + 5) 4 app_data
  let host_name = from_utf8_lossy host_bytes
  ok (record {
    name = unless_empty (from_utf8_lossy level_bytes) host_name;
    host_name = host_name;
    mc_version = codes "Bedrock v1.20.50+ (v" ++ (decimal (from_le version_byte) ++ codes ")");
    players = from_le players;
    max_players = from_le max_players;
    port = port;
  })

module _ (ciphers : Ciphers) where
  -- The end of a datagram's making: its tag, and the payload padded and encrypted.
  unfoldable pub seal : Bytes → Bytes → Reading Bytes
  unfolding on_chunks
  seal key payload =
      let pad_len = 16 - length payload % 16 in
      let padded = payload ++ replicate pad_len pad_len in
      on_chunks (length padded) (ciphers.encrypt_block key) padded >>= λ encrypted.
      ok (ciphers.hmac key payload ++ encrypted)

  abbrev pub nethernet_request : ℕ → Bytes
  nethernet_request sender_id =
      to_le 2 18 ++ (to_le 2 0 ++ (to_le 8 (u64 sender_id) ++ replicate 8 0))

  -- The request that `discover_server_on_port` sends.
  unfoldable pub nethernet_ping : ℕ → Reading Bytes
  unfolding seal
  nethernet_ping sender_id = seal nethernet_key (nethernet_request sender_id)

  -- A payload whose tag is right. `payload[2]` and `payload[3]` are read with no test.
  unfoldable pub read_payload : Bytes → ℕ → Reading ServerInfo
  unfolding read_app_data
  read_payload payload port = do
    low ← index payload 2
    high ← index payload 3
    check (from_le (low ∷ high ∷ []) == 1)
    app_data_len ← slice 20 4 payload
    hex_data ← slice 24 (from_le app_data_len) payload
    app_data ← ok_or (ciphers.hex_decode hex_data) skip
    read_app_data app_data port

  -- A datagram of `len` bytes that is no pong.
  unfoldable pub parse_nethernet : Bytes → ℕ → ℕ → Reading ServerInfo
  unfolding read_payload on_chunks
  parse_nethernet buf len port = do
    check (leb 48 len)
    let encrypted = drop 32 (take len buf)
    decrypted ← on_chunks (length encrypted) (ciphers.decrypt_block nethernet_key) encrypted
    low ← index decrypted 0
    high ← index decrypted 1
    payload ← slice 0 (from_le (low ∷ high ∷ []) + 2) decrypted
    check (same_bytes (ciphers.hmac nethernet_key payload) (take 32 buf))
    read_payload payload port

  abbrev pong_or : Option ServerInfo → Reading ServerInfo → Reading ServerInfo
  pong_or none later = later
  pong_or (some info) later = ok info

  -- One datagram in the loop of `discover_server_on_port`: a pong, or else a NetherNet response.
  unfoldable pub read_reply : Bytes → ℕ → ℕ → Reading ServerInfo
  unfolding parse_nethernet
  read_reply buf len port = pong_or (parse_raknet_pong buf len port) (parse_nethernet buf len port)

  -- The end of the loop: `none` when the deadline comes first.
  abbrev found_or :
      Reading ServerInfo → Outcome Skip (Option ServerInfo) → Outcome Skip (Option ServerInfo)
  found_or (ok info) rest = ok (some info)
  found_or (err e) rest = rest
  found_or panic rest = panic
  found_or out_of_fuel rest = out_of_fuel

  -- The loop over what the socket gives before the deadline, `none` for an error.
  unfoldable pub reply_loop : ℕ → Bytes → List (Option Bytes) → Outcome Skip (Option ServerInfo)
  unfolding read_reply
  reply_loop port buf [] = ok none
  reply_loop port buf (none ∷ events) = reply_loop port buf events
  reply_loop port buf (some datagram ∷ events) =
      let (buf', len) = recv_into 2048 buf datagram in
      let rest = reply_loop port buf' events in found_or (read_reply buf' len port) rest

  -- `discover_server_on_port` after its pings.
  unfoldable pub discover_server_on_port :
      ℕ → List (Option Bytes) → Outcome Skip (Option ServerInfo)
  unfolding reply_loop
  discover_server_on_port port events = reply_loop port (replicate 2048 0) events
