-- ===== src/Relay/Frames.antt =====
-- The frames of the relay, read back.
use p2p_core.Base.{
  ℕ, arith, if◌then◌else◌, length, length-append, ok, ok_or, ◌+◌, ◌<◌, ◌==◌, ◌>>=◌, ◌^◌, ◌≡◌,
  Bool-cases, Option, Option-cases, false, inl, inr, le→ltb, ltb, some, ◌∙◌, ◌≢◌, ◌≤◌, ltb→lt, none,
}
use p2p_core.Base.Words.{Bytes, to_be, from_be-to_be, length-to_be}
use mathlib.Core.Path.{subst}
use p2p_core.Relay.{
  Zstd, decompression_failed, encode_frame, decode_frame, frame_data, frame_data_zstd,
  encode_data_frame_maybe_compressed, smaller, zstd_min_payload,
}

pub length-encode_frame : (kind id : ℕ) (p : Bytes) → length (encode_frame kind id p) ≡ 9 + length p
unfolding encode_frame
length-encode_frame kind id p = omega (arith, length-append (to_be 8 id) p, length-to_be 8 id)

module _ (zstd : Zstd) where
  -- The frame that was encoded, before the look at its kind.
  decode-encode_any :
      (kind id : ℕ) (p : Bytes)
      → id < 2 ^ 64
      → decode_frame zstd (encode_frame kind id p) ≡ (
          if kind == frame_data_zstd
          then (do
            decompressed ← ok_or (zstd.decode_all p) decompression_failed
            ok (record { kind = frame_data; stream_id = id; payload = decompressed }))
          else ok (record { kind = kind; stream_id = id; payload = p }))
  unfolding decode_frame encode_frame
  decode-encode_any kind id p h =
      let full : ltb (length (encode_frame kind id p)) 9 ≡ false = le→ltb _ _ (omega arith) in
      rw (full, from_be-to_be 8 id h)

  -- A frame of any kind but the compressed one is read back as it was written.
  pub decode-encode :
      (kind id : ℕ) (p : Bytes)
      → kind ≢ frame_data_zstd
      → id < 2 ^ 64
      → decode_frame zstd (encode_frame kind id p)
        ≡ ok (record { kind = kind; stream_id = id; payload = p })
  decode-encode kind id p ne h =
      let plain : (kind == frame_data_zstd) ≡ false = ground arith in
      decode-encode_any kind id p h ∙ rw plain

  decode-compressed :
      (id : ℕ) (p c : Bytes)
      → id < 2 ^ 64
      → zstd.encode_all p ≡ some c
      → decode_frame zstd (encode_frame frame_data_zstd id c)
        ≡ ok (record { kind = frame_data; stream_id = id; payload = p })
  decode-compressed id p c h e =
      decode-encode_any frame_data_zstd id c h ∙ rw (zstd.decode-encode p c e)

  smaller-some : (o : Option Bytes) (p c : Bytes) → smaller zstd o p ≡ some c → o ≡ some c
  smaller-some o p c h = ground arith

  smaller-shorter :
      (o : Option Bytes) (p c : Bytes) → smaller zstd o p ≡ some c → length c < length p
  smaller-shorter none p c h = cc
  smaller-shorter (some d) p c h = elim (Bool-cases (ltb (length d) (length p))) [
    | inl lt ↦
        let e : some d ≡ some c = rw lt at h in
        let same : d ≡ c = cc e in subst (λ x. length x < length p) same (ltb→lt _ _ lt)
    | inr ge ↦ cc (ge, h)
  ]

  -- Whatever the compressor makes of a payload, small or large, as long as it decodes to the payload,
  -- the other side reads a DATA frame of the same stream with the same payload.
  pub decode-encode_maybe_compressed :
      (id : ℕ) (p : Bytes)
      → id < 2 ^ 64
      → decode_frame zstd (encode_data_frame_maybe_compressed zstd id p)
        ≡ ok (record { kind = frame_data; stream_id = id; payload = p })
  unfolding encode_data_frame_maybe_compressed
  decode-encode_maybe_compressed id p h =
      let plain = decode-encode frame_data id p (λ e. omega arith) h in
      elim (Bool-cases (ltb (length p) zstd_min_payload)) [
        | inl small ↦ rw small plain
        | inr large ↦ elim (Option-cases (smaller zstd (zstd.encode_all p) p)) [
          | inl kept ↦ rw (large, kept) plain
          | inr (c, e) ↦
              rw (large, e) (decode-compressed id p c h (smaller-some (zstd.encode_all p) p c e))
        ]
      ]

  -- No frame comes out longer than the plain one.
  pub length-maybe_compressed :
      (id : ℕ) (p : Bytes) → length (encode_data_frame_maybe_compressed zstd id p) ≤ 9 + length p
  unfolding encode_data_frame_maybe_compressed
  length-maybe_compressed id p = elim (Bool-cases (ltb (length p) zstd_min_payload)) [
    | inl small ↦ rw small (omega (arith, length-encode_frame frame_data id p))
    | inr large ↦ elim (Option-cases (smaller zstd (zstd.encode_all p) p)) [
      | inl kept ↦ rw (large, kept) (omega (arith, length-encode_frame frame_data id p))
      | inr (c, e) ↦
          rw (large, e)
            (omega (
              arith,
              length-encode_frame frame_data_zstd id c,
              smaller-shorter (zstd.encode_all p) p c e,
            ))
    ]
  ]
