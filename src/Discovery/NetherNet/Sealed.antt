-- ===== src/Discovery/NetherNet/Sealed.antt =====
-- src/discovery.rs: what is sealed under the key is opened by it, and a ragged datagram panics.
use p2p_core.Base.{
  ℕ, ==_iff, [], ap, arith, leb, length, length-append, length-replicate, ok, refl, replicate, true,
  ◌%◌, ◌*◌, ◌++◌, ◌+◌, ◌-◌, ◌/◌, ◌∙◌, ◌∷◌, ◌≡◌, ◌≤◌, append_assoc, drop, drop-append_at,
  length-drop, length-take, none, panic, take, take-all, take-append, take-append_at, ◌<◌,
}
use p2p_core.Base.Words.{Bytes, from_le}
use p2p_core.Discovery.{recv_into, parse_raknet_pong}
use p2p_core.Discovery.NetherNet.{
  Ciphers, nethernet_key, on_chunks, parse_nethernet, read_payload, same_bytes, seal, read_reply,
}
use p2p_core.Discovery.NetherNet.Chunks.{
  blocks-blocks, length-blocks, on_chunks-blocks, blocks, on_chunks-ragged,
}

-- What the crates promise of the ciphers.
pub record AreSound (c : Ciphers) : Type 0 where
  pub decrypts : (key b : Bytes) → length b ≡ 16 → c.decrypt_block key (c.encrypt_block key b) ≡ b
  pub block_size : (key b : Bytes) → length b ≡ 16 → length (c.encrypt_block key b) ≡ 16
  pub tag_size : (key m : Bytes) → length (c.hmac key m) ≡ 32

same_bytes_self : (bs : Bytes) → same_bytes bs bs ≡ true
same_bytes_self [] = refl
same_bytes_self (b ∷ bs) = rw ((==_iff b b).1 refl, same_bytes_self bs) refl

module _ (ciphers : Ciphers) (sound : AreSound ciphers) where
  padding : Bytes → Bytes
  padding payload = let pad_len = 16 - length payload % 16 in replicate pad_len pad_len

  rounds : Bytes → ℕ
  rounds payload = length payload / 16 + 1

  length-padded : (payload : Bytes) → length (payload ++ padding payload) ≡ rounds payload * 16
  unfolding padding rounds
  length-padded payload =
      let pad_len = 16 - length payload % 16 in
      omega (arith, length-append payload (padding payload), length-replicate pad_len pad_len)

  ciphertext : Bytes → Bytes
  ciphertext payload =
      blocks (rounds payload) (ciphers.encrypt_block nethernet_key) (payload ++ padding payload)

  length-ciphertext : (payload : Bytes) → length (ciphertext payload) ≡ rounds payload * 16
  unfolding ciphertext
  length-ciphertext payload =
      length-blocks (ciphers.encrypt_block nethernet_key) (ciphers.decrypt_block nethernet_key)
        (sound.block_size nethernet_key) (sound.decrypts nethernet_key) (rounds payload)
        (payload ++ padding payload) (length-padded payload)

  datagram : Bytes → Bytes
  datagram payload = ciphers.hmac nethernet_key payload ++ ciphertext payload

  seal-datagram : (payload : Bytes) → seal ciphers nethernet_key payload ≡ ok (datagram payload)
  unfolding seal datagram padding ciphertext
  seal-datagram payload =
      rw
        (on_chunks-blocks (ciphers.encrypt_block nethernet_key)
          (length (payload ++ padding payload)) (rounds payload) (payload ++ padding payload)
          (length-padded payload) (omega (arith, length-padded payload)))
        refl

  decrypted_ciphertext :
      (payload : Bytes)
      → on_chunks
          (length (ciphertext payload))
          (ciphers.decrypt_block nethernet_key)
          (ciphertext payload)
        ≡ ok (payload ++ padding payload)
  decrypted_ciphertext payload =
      on_chunks-blocks (ciphers.decrypt_block nethernet_key) (length (ciphertext payload))
        (rounds payload) (ciphertext payload) (length-ciphertext payload)
        (omega (arith, length-ciphertext payload))
      ∙ ap ok (
          unfold ciphertext in
          blocks-blocks (ciphers.encrypt_block nethernet_key) (ciphers.decrypt_block nethernet_key)
            (sound.block_size nethernet_key) (sound.decrypts nethernet_key) (rounds payload)
            (payload ++ padding payload) (length-padded payload))

  length-datagram : (payload : Bytes) → length (datagram payload) ≡ 32 + rounds payload * 16
  unfolding datagram
  length-datagram payload =
      length-append (ciphers.hmac nethernet_key payload) (ciphertext payload)
      ∙ omega (arith, sound.tag_size nethernet_key payload, length-ciphertext payload)

  datagram_long : (payload : Bytes) → 48 ≤ length (datagram payload)
  unfolding rounds
  datagram_long payload = omega (arith, length-datagram payload)

  tag_of :
      (payload rest : Bytes)
      → take 32 (datagram payload ++ rest) ≡ ciphers.hmac nethernet_key payload
  unfolding datagram
  tag_of payload rest =
      ap (take 32) (append_assoc (ciphers.hmac nethernet_key payload) (ciphertext payload) rest)
      ∙ take-append_at 32 _ (ciphertext payload ++ rest) (sound.tag_size nethernet_key payload)

  body_of :
      (payload rest : Bytes)
      → drop 32 (take (length (datagram payload)) (datagram payload ++ rest)) ≡ ciphertext payload
  body_of payload rest =
      ap (drop 32) (take-append (datagram payload) rest)
      ∙ (unfold datagram in
          drop-append_at 32 _ (ciphertext payload) (sound.tag_size nethernet_key payload))

  parse_nethernet-datagram :
      (a b port : ℕ) (ps rest : Bytes)
      → from_le (a ∷ b ∷ []) + 2 ≡ length (a ∷ b ∷ ps)
      → parse_nethernet ciphers
          (datagram (a ∷ b ∷ ps) ++ rest)
          (length (datagram (a ∷ b ∷ ps)))
          port
        ≡ read_payload ciphers (a ∷ b ∷ ps) port
  unfolding parse_nethernet
  parse_nethernet-datagram a b port ps rest told =
      let payload : Bytes = a ∷ b ∷ ps in
      let long : leb 48 (length (datagram payload)) ≡ true =
        ground (arith, datagram_long payload) in
      let inside : leb (0 + length payload) (length (payload ++ padding payload)) ≡ true =
        ground (arith, length-append payload (padding payload)) in
      rw
        (
          long,
          body_of payload rest,
          decrypted_ciphertext payload,
          told,
          inside,
          take-append ps (padding payload),
          tag_of payload rest,
          same_bytes_self (ciphers.hmac nethernet_key payload),
        )
        refl

  -- With ciphers that decrypt a block to itself, keep its size and give tags of 32 bytes, a datagram
  -- sealed under the key is opened: it is read as its payload is, for a payload that starts with its
  -- length less 2 and fits the buffer.
  pub seal-opened :
      (a b port : ℕ) (ps buf : Bytes)
      → from_le (a ∷ b ∷ []) + 2 ≡ length (a ∷ b ∷ ps)
      → length ps ≤ 1982
      → (sealed : Bytes) × (seal ciphers nethernet_key (a ∷ b ∷ ps) ≡ ok sealed)
        × (parse_nethernet ciphers (recv_into 2048 buf sealed).0 (recv_into 2048 buf sealed).1 port
            ≡ read_payload ciphers (a ∷ b ∷ ps) port)
  seal-opened a b port ps buf told short =
      let sealed = datagram (a ∷ b ∷ ps) in
      let fits : take 2048 sealed ≡ sealed =
        take-all 2048 sealed (unfold rounds in omega (arith, length-datagram (a ∷ b ∷ ps))) in
      (
        sealed,
        seal-datagram (a ∷ b ∷ ps),
        rw fits (parse_nethernet-datagram a b port ps (drop (length sealed) buf) told),
      )

-- Any datagram of 48 bytes or more whose part after the tag is no whole number of blocks ends the search in a panic, unless it reads as a pong.
pub read_reply-ragged :
    (ciphers : Ciphers) (n r port len : ℕ) (buf : Bytes)
    → parse_raknet_pong buf len port ≡ none
    → len ≤ length buf
    → 48 ≤ len
    → len ≡ 32 + n * 16 + r
    → 0 < r
    → r < 16
    → read_reply ciphers buf len port ≡ panic
unfolding read_reply parse_nethernet
read_reply-ragged ciphers n r port len buf other inside long e lo hi =
    let enough : leb 48 len ≡ true = ground arith in
    let encrypted = drop 32 (take len buf) in
    let size : length encrypted ≡ n * 16 + r =
      omega (arith, length-drop 32 (take len buf), length-take len buf) in
    let stuck =
      on_chunks-ragged (ciphers.decrypt_block nethernet_key) (length encrypted) n r encrypted size
        lo hi (omega arith) in
    rw (other, enough, stuck) refl
