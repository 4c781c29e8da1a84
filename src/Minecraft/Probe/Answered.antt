-- ===== src/Minecraft/Probe/Answered.antt =====
-- src/minecraft.rs: what a probe reads from the answer to it.
use p2p_core.Base.{
  ok, err, ℕ, All, List, Option, Outcome, [], arith, leb, length, length-append, ok_or, refl, some,
  take-append, true, ◌++◌, ◌+◌, ◌<◌, ◌>>=◌, ◌^◌, ◌∷◌, ◌≡◌, drop, get_or, ltb, take, take-all, ◌≤◌,
}
use p2p_core.Base.Words.{Bytes, to_be, u64}
use p2p_core.Discovery.{recv_into, ping_packet}
use p2p_core.Broadcaster.{Room, motd, pong, answer}
use p2p_core.Broadcaster.Discovered.{
  IsPlain, slots_of, motd_some, split-motd, answer-ping_packet, length-pong,
}
use p2p_core.Minecraft.{pos, write_varint}
use p2p_core.Minecraft.Probe.{
  QueryError, read_bedrock_pong, read_payload, read_status, text_len, try_candidates, bedrock_ping,
}
use p2p_core.Minecraft.Varint.{read_varint-write_varint}
use p2p_core.Text.Numbers.{parse_uint-decimal}

take_payload :
    (payload rest : Bytes) → read_payload (pos (length payload)) (payload ++ rest) ≡ ok payload
take_payload payload rest =
    let inside : leb (length payload) (length (payload ++ rest)) ≡ true =
      ground (arith, length-append payload rest) in
    rw (inside, take-append payload rest) refl

-- A status response, written as VarInts and a JSON text, is read as that text is, whatever comes behind it.
pub read_status-framed :
    {S : Type 0} (from_slice : Bytes → Option S) (size : ℕ) (payload rest : Bytes)
    → size < 2 ^ 31
    → length payload < 2 ^ 31
    → (head : Bytes) × (id : Bytes) × (len : Bytes) × (write_varint [] (pos size) ≡ ok head)
      × (write_varint [] (pos 0) ≡ ok id)
      × (write_varint [] (pos (length payload)) ≡ ok len)
      × (read_status from_slice (head ++ (id ++ (len ++ (payload ++ rest))))
          ≡ ok_or (from_slice payload) QueryError.bad_json)
unfolding read_status
read_status-framed from_slice size payload rest h k =
    let body = payload ++ rest in
    let (len, wrote_len, short_len, read_len) =
      read_varint-write_varint (length payload) [] body k in
    let (id, wrote_id, short_id, read_id) =
      read_varint-write_varint 0 [] (len ++ body) (omega arith) in
    let (head, wrote_head, short_head, read_head) =
      read_varint-write_varint size [] (id ++ (len ++ body)) h in
    (
      head,
      id,
      len,
      wrote_head,
      wrote_id,
      wrote_len,
      rw (read_head, read_id, read_len, take_payload payload rest) refl,
    )

-- The first of the protocol candidates whose query is answered gives the status.
pub try_candidates-first :
    {S : Type 0} (from_slice : Bytes → Option S) (net : ℕ → Outcome QueryError Bytes)
    (before after : List ℕ) (p : ℕ) (last : QueryError) (s : S)
    → All (λ q. (e : QueryError) × ((net q >>= read_status from_slice) ≡ err e)) before
    → (net p >>= read_status from_slice) ≡ ok s
    → try_candidates from_slice net last (before ++ (p ∷ after)) ≡ ok s
unfolding try_candidates
try_candidates-first from_slice net [] after p last s h e = rw e refl
try_candidates-first from_slice net (q ∷ qs) after p last s h e =
    rw (h.0.1) (try_candidates-first from_slice net qs after p h.0.0 s h.1 e)

module _ (r : Room) (now : ℕ) (rest : Bytes) where
  reply : Bytes
  reply = pong r (to_be 8 (u64 now))

  text_len-reply : length (motd r) < 2 ^ 16 → text_len (reply ++ rest) ≡ length (motd r)
  unfolding reply pong
  text_len-reply h = omega arith

  read_bedrock_pong-reply :
      (n m : ℕ)
      → IsPlain r
      → r.slots ≡ slots_of n m
      → n < 2 ^ 32
      → m < 2 ^ 32
      → length (motd r) < 2 ^ 16
      → read_bedrock_pong (reply ++ rest) (35 + length (motd r))
        ≡ some (record {
          room_name = r.room_name;
          host_name = r.room_name;
          version = some r.mc_version;
          online_players = n;
          max_players = m;
        })
  unfolding read_bedrock_pong
  read_bedrock_pong-reply n m plain slots small most short =
      let long : ltb 35 (35 + length (motd r)) ≡ true = ground (arith, motd_some r) in
      let fits : leb (35 + text_len (reply ++ rest)) (35 + length (motd r)) ≡ true =
        ground (arith, text_len-reply short) in
      let body : drop 35 (reply ++ rest) ≡ motd r ++ rest = unfold reply pong in refl in
      let first : get_or (reply ++ rest) 0 0 ≡ 0x1c = unfold reply pong in refl in
      rw
        (
          long,
          first,
          fits,
          text_len-reply short,
          body,
          take-append (motd r) rest,
          split-motd r n m plain slots,
          parse_uint-decimal (2 ^ 32) n small (omega arith),
          parse_uint-decimal (2 ^ 32) m most (omega arith),
        )
        refl

-- The ping of the probe to a room is answered, and the probe reads from the pong the room's name, for its host too, its version, its players and its most players. The texts are UTF-8 without semicolons, the slots read "players/most" of 32 bits, and the pong fits the buffer of 1024 bytes.
pub room_probed :
    (r : Room) (n m now : ℕ) (buf buf' : Bytes)
    → IsPlain r
    → r.slots ≡ slots_of n m
    → n < 2 ^ 32
    → m < 2 ^ 32
    → length (motd r) ≤ 989
    → (answered : Bytes) × (answer r
          (recv_into 1024 buf (bedrock_ping now)).0
          (recv_into 1024 buf (bedrock_ping now)).1
        ≡ some answered)
      × (read_bedrock_pong (recv_into 1024 buf' answered).0 (recv_into 1024 buf' answered).1
          ≡ some (record {
            room_name = r.room_name;
            host_name = r.room_name;
            version = some r.mc_version;
            online_players = n;
            max_players = m;
          }))
unfolding reply
room_probed r n m now buf buf' plain slots small most short =
    let sent = pong r (to_be 8 (u64 now)) in
    let size = length-pong r now in
    let fits : take 1024 sent ≡ sent = take-all 1024 sent (omega (arith, size)) in
    (
      sent,
      (unfold bedrock_ping ping_packet in answer-ping_packet r now buf),
      rw (fits, size)
          (read_bedrock_pong-reply r now (drop (35 + length (motd r)) buf') n m plain slots small
            most (omega arith)),
    )
