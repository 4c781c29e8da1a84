-- ===== src/Discovery/NetherNet/Chunks.antt =====
-- src/discovery.rs: a block function over chunks of 16 bytes, and where the last chunk is short.
use p2p_core.Base.{
  ℕ, ==_iff, [], arith, drop, false, length, length-append, length-drop, length-take, ok, panic,
  refl, suc, take, true, zero, ◌*◌, ◌++◌, ◌+◌, ◌<◌, ◌==◌, ◌∙◌, ◌∷◌, ◌≡◌, ◌≤◌, take-append-drop,
  drop-append_at, take-append_at,
}
use p2p_core.Base.Words.{Bytes}
use p2p_core.Discovery.NetherNet.{on_chunks}

abbrev pub blocks : ℕ → (Bytes → Bytes) → Bytes → Bytes
blocks zero f bs = []
blocks (suc n) f bs = f (take 16 bs) ++ blocks n f (drop 16 bs)

module _ (f : Bytes → Bytes) where
  pub on_chunks-blocks :
      (rounds n : ℕ) (bs : Bytes)
      → length bs ≡ n * 16
      → n ≤ rounds
      → on_chunks rounds f bs ≡ ok (blocks n f bs)
  unfolding on_chunks
  on_chunks-blocks rounds zero [] h k = refl
  on_chunks-blocks rounds zero (b ∷ bs) h k = absurd (omega arith)
  on_chunks-blocks rounds (suc n) [] h k = absurd (omega arith)
  on_chunks-blocks zero (suc n) (b ∷ bs) h k = absurd (omega arith)
  on_chunks-blocks (suc rounds) (suc n) (b ∷ bs) h k =
      let full : (length (take 16 (b ∷ bs)) == 16) ≡ true =
        (==_iff _ 16).1 (omega (arith, length-take 16 (b ∷ bs))) in
      let ih =
        on_chunks-blocks rounds n (drop 16 (b ∷ bs)) (omega (arith, length-drop 16 (b ∷ bs)))
          (omega arith) in
      rw (full, ih) refl

  -- A chunk that is left over makes the conversion panic.
  pub on_chunks-ragged :
      (rounds n r : ℕ) (bs : Bytes)
      → length bs ≡ n * 16 + r
      → 0 < r
      → r < 16
      → n < rounds
      → on_chunks rounds f bs ≡ panic
  unfolding on_chunks
  on_chunks-ragged rounds n r [] h lo hi k = absurd (omega arith)
  on_chunks-ragged zero n r (b ∷ bs) h lo hi k = absurd (omega arith)
  on_chunks-ragged (suc rounds) zero r (b ∷ bs) h lo hi k =
      let short : (length (take 16 (b ∷ bs)) == 16) ≡ false =
        ground (arith, length-take 16 (b ∷ bs)) in
      rw short refl
  on_chunks-ragged (suc rounds) (suc n) r (b ∷ bs) h lo hi k =
      let full : (length (take 16 (b ∷ bs)) == 16) ≡ true =
        (==_iff _ 16).1 (omega (arith, length-take 16 (b ∷ bs))) in
      let ih =
        on_chunks-ragged rounds n r (drop 16 (b ∷ bs)) (omega (arith, length-drop 16 (b ∷ bs))) lo
          hi (omega arith) in
      rw (full, ih) refl

module _ (f g : Bytes → Bytes) (sized : (b : Bytes) → length b ≡ 16 → length (f b) ≡ 16)
    (inverse : (b : Bytes) → length b ≡ 16 → g (f b) ≡ b) where
  pub length-blocks : (n : ℕ) (bs : Bytes) → length bs ≡ n * 16 → length (blocks n f bs) ≡ n * 16
  length-blocks zero bs h = omega arith
  length-blocks (suc n) bs h =
      length-append (f (take 16 bs)) (blocks n f (drop 16 bs))
      ∙ omega (
        arith,
        sized (take 16 bs) (omega (arith, length-take 16 bs)),
        length-blocks n (drop 16 bs) (omega (arith, length-drop 16 bs)),
      )

  pub blocks-blocks : (n : ℕ) (bs : Bytes) → length bs ≡ n * 16 → blocks n g (blocks n f bs) ≡ bs
  blocks-blocks zero [] h = refl
  blocks-blocks zero (b ∷ bs) h = absurd (omega arith)
  blocks-blocks (suc n) bs h =
      let first = take 16 bs in
      let rest = blocks n f (drop 16 bs) in
      let full : length first ≡ 16 = omega (arith, length-take 16 bs) in
      let size = sized first full in
      let front : take 16 (f first ++ rest) ≡ f first = take-append_at 16 (f first) rest size in
      let back : drop 16 (f first ++ rest) ≡ rest = drop-append_at 16 (f first) rest size in
      let ih = blocks-blocks n (drop 16 bs) (omega (arith, length-drop 16 bs)) in
      rw (front, back, inverse first full, ih) (take-append-drop 16 bs)
