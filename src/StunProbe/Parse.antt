-- ===== src/StunProbe/Parse.antt =====
-- The parser of stun.rs computes `find_mapped` on the window of the buffer that the reply claims.
use p2p_core.Base.{
  ℕ, [], arith, bit_xor, ◌*◌, ◌+◌, ◌<◌, ◌^◌, ◌∷◌, ◌≡◌, All, List, ap, drop, drop-drop, get_elem?,
  get_elem?-drop, index, leb, ok, refl, some, suc, sym, take, true, zero, ◌∙◌, Bool-cases, false,
  if◌then◌else◌, inl, inr, leb→le, length, length-take, none, ◌==◌, ◌≤◌,
}
use p2p_core.Base.Words.{from_be, Bytes, IsByte}
use p2p_core.Base.Bits.{bit_xor_fields, bit_xor-lt}
use p2p_core.Net.{v4}
use p2p_core.StunProbe.{ipv4_of, probe_attribute, mapped, xor_mapped}
use p2p_core.Signaling.{StunError, u16_at}
use p2p_core.Signaling.Attributes.{attr_addr, plain_addr, xor_addr}

-- An exclusive or of 32 bits, by its four bytes.
abbrev quad : ℕ → ℕ → ℕ → ℕ → ℕ
quad a b c d = ((a * 2 ^ 8 + b) * 2 ^ 8 + c) * 2 ^ 8 + d

quad_xor :
    (a b c d e f g h : ℕ)
    → b < 2 ^ 8
    → c < 2 ^ 8
    → d < 2 ^ 8
    → f < 2 ^ 8
    → g < 2 ^ 8
    → h < 2 ^ 8
    → bit_xor (quad a b c d) (quad e f g h)
      ≡ quad (bit_xor a e) (bit_xor b f) (bit_xor c g) (bit_xor d h)
quad_xor a b c d e f g h hb hc hd hf hg hh = rw (
  bit_xor_fields 8 ((a * 2 ^ 8 + b) * 2 ^ 8 + c) d ((e * 2 ^ 8 + f) * 2 ^ 8 + g) h hd hh,
  bit_xor_fields 8 (a * 2 ^ 8 + b) c (e * 2 ^ 8 + f) g hc hg,
  bit_xor_fields 8 a b e f hb hf,
)

ipv4_of-quad :
    (a b c d : ℕ) → a < 256 → b < 256 → c < 256 → d < 256 → ipv4_of (quad a b c d) ≡ v4 a b c d
ipv4_of-quad a b c d ha hb hc hd = ground arith

-- Both ways to undo the mask of an IPv4 address agree on bytes.
pub ipv4_of-xor :
    (a b c d : ℕ)
    → a < 256
    → b < 256
    → c < 256
    → d < 256
    → ipv4_of (bit_xor (from_be (a ∷ b ∷ c ∷ d ∷ [])) 0x2112_a442)
      ≡ v4 (bit_xor a 0x21) (bit_xor b 0x12) (bit_xor c 0xa4) (bit_xor d 0x42)
ipv4_of-xor a b c d ha hb hc hd =
    let e : from_be (a ∷ b ∷ c ∷ d ∷ []) ≡ quad a b c d = omega arith in
    rw (e, quad_xor a b c d 0x21 0x12 0xa4 0x42 hb hc hd (omega arith) (omega arith) (omega arith))
      (ipv4_of-quad _ _ _ _ (bit_xor-lt 8 a 0x21 ha (omega arith))
        (bit_xor-lt 8 b 0x12 hb (omega arith)) (bit_xor-lt 8 c 0xa4 hc (omega arith))
        (bit_xor-lt 8 d 0x42 hd (omega arith)))

get_elem?-take :
    {A : Type 0} (n i : ℕ) (x : A) (xs : List A)
    → get_elem? (take n xs) i ≡ some x
    → get_elem? xs i ≡ some x
get_elem?-take zero i x xs h = cc
get_elem?-take (suc n) i x [] h = cc
get_elem?-take (suc n) zero x (y ∷ xs) h = h
get_elem?-take (suc n) (suc i) x (y ∷ xs) h = get_elem?-take n i x xs h

pub take-IsByte : (n : ℕ) (xs : Bytes) → All IsByte xs → All IsByte (take n xs)
take-IsByte zero xs h = tt
take-IsByte (suc n) [] h = tt
take-IsByte (suc n) (x ∷ xs) h = (h.0, take-IsByte n xs h.1)

pub drop-IsByte : (n : ℕ) (xs : Bytes) → All IsByte xs → All IsByte (drop n xs)
drop-IsByte zero xs h = h
drop-IsByte (suc n) [] h = tt
drop-IsByte (suc n) (x ∷ xs) h = drop-IsByte n xs h.1

-- `stop` ends the part of the buffer that the loop reads.
module _ (buf : Bytes) (stop : ℕ) where
  abbrev pub IsWindow : ℕ → Bytes → Type 0
  IsWindow off xs = drop off (take stop buf) ≡ xs

  index_in :
      (off i x : ℕ) (xs : Bytes)
      → IsWindow off xs
      → get_elem? xs i ≡ some x
      → index {E = StunError} buf (off + i) ≡ ok x
  index_in off i x xs e g =
      let h : get_elem? (take stop buf) (off + i) ≡ some x =
        sym (get_elem?-drop off i (take stop buf)) ∙ ap (λ l. get_elem? l i) e ∙ g in
      let h' : get_elem? buf (off + i) ≡ some x = get_elem?-take stop (off + i) x buf h in
      rw (h', index)

  index_first :
      (off x : ℕ) (xs : Bytes) → IsWindow off (x ∷ xs) → index {E = StunError} buf off ≡ ok x
  index_first off x xs e =
      let z : off + 0 ≡ off = omega arith in
      ap (index buf) (sym z) ∙ index_in off 0 x (x ∷ xs) e refl

  pub IsWindow-drop :
      (off k : ℕ) (xs ys : Bytes) → IsWindow off xs → drop k xs ≡ ys → IsWindow (off + k) ys
  IsWindow-drop off k xs ys e d = sym (drop-drop off k (take stop buf)) ∙ ap (drop k) e ∙ d

  pub u16_in :
      (off a b : ℕ) (r : Bytes) → IsWindow off (a ∷ b ∷ r) → u16_at buf off ≡ ok (a * 256 + b)
  u16_in off a b r e =
      rw (index_first off a (b ∷ r) e, index_in off 1 b (a ∷ b ∷ r) e refl) (ap ok (omega arith))

  -- A value of eight bytes at least.
  module _ (n at z f p q a b c d : ℕ) (r : Bytes)
      (e : IsWindow at (z ∷ f ∷ p ∷ q ∷ a ∷ b ∷ c ∷ d ∷ r)) (big : leb 8 n ≡ true) where
    abbrev value : Bytes
    value = z ∷ f ∷ p ∷ q ∷ a ∷ b ∷ c ∷ d ∷ r

    port_in : u16_at buf (at + 2) ≡ ok (p * 256 + q)
    port_in = u16_in (at + 2) p q (a ∷ b ∷ c ∷ d ∷ r) (IsWindow-drop at 2 value _ e refl)

    xor_mapped-long :
        (t : ℕ)
        → a < 256
        → b < 256
        → c < 256
        → d < 256
        → xor_mapped buf t n at ≡ ok (if t == 0x20 then xor_addr value else none)
    unfolding xor_mapped
    xor_mapped-long t ha hb hc hd =
        rw
          (
            big,
            index_in at 1 f value e refl,
            port_in,
            index_in at 4 a value e refl,
            index_in at 5 b value e refl,
            index_in at 6 c value e refl,
            index_in at 7 d value e refl,
            ipv4_of-xor a b c d ha hb hc hd,
          )
          (ground arith)

    mapped-long : (t : ℕ) → mapped buf t n at ≡ ok (if t == 0x01 then plain_addr value else none)
    unfolding mapped
    mapped-long t =
        rw
          (
            big,
            index_in at 1 f value e refl,
            port_in,
            index_in at 4 a value e refl,
            index_in at 5 b value e refl,
            index_in at 6 c value e refl,
            index_in at 7 d value e refl,
          )
          (ground arith)

    -- Both parsers see the same address in it.
    attribute_long :
        (t : ℕ)
        → a < 256
        → b < 256
        → c < 256
        → d < 256
        → probe_attribute buf t n at ≡ ok (attr_addr t value)
    unfolding probe_attribute attr_addr
    attribute_long t ha hb hc hd =
        rw (xor_mapped-long t ha hb hc hd) (ground (arith, mapped-long t))

  attribute_short : (t n at : ℕ) → leb 8 n ≡ false → probe_attribute buf t n at ≡ ok none
  unfolding probe_attribute xor_mapped mapped
  attribute_short t n at h = ground arith

attr_addr-short : (t : ℕ) (v : Bytes) → length v < 8 → attr_addr t v ≡ none
unfolding attr_addr
attr_addr-short t [] h = ground arith
attr_addr-short t (_ ∷ []) h = ground arith
attr_addr-short t (_ ∷ _ ∷ []) h = ground arith
attr_addr-short t (_ ∷ _ ∷ _ ∷ []) h = ground arith
attr_addr-short t (_ ∷ _ ∷ _ ∷ _ ∷ []) h = ground arith
attr_addr-short t (_ ∷ _ ∷ _ ∷ _ ∷ _ ∷ []) h = ground arith
attr_addr-short t (_ ∷ _ ∷ _ ∷ _ ∷ _ ∷ _ ∷ []) h = ground arith
attr_addr-short t (_ ∷ _ ∷ _ ∷ _ ∷ _ ∷ _ ∷ _ ∷ []) h = ground arith
attr_addr-short t (_ ∷ _ ∷ _ ∷ _ ∷ _ ∷ _ ∷ _ ∷ _ ∷ v) h = absurd (omega arith)

-- The value of an attribute begins at `at` and has `n` of the bytes there.
pub attribute-eq :
    (buf rest : Bytes) (stop t n at : ℕ)
    → drop at (take stop buf) ≡ rest
    → All IsByte rest
    → n ≤ length rest
    → probe_attribute buf t n at ≡ ok (attr_addr t (take n rest))
attribute-eq buf rest stop t n at e h fits = elim (Bool-cases (leb 8 n)) [
  | inl big ↦ long rest n e h fits (leb→le 8 n big) big
  | inr small ↦
      attribute_short buf stop t n at small
      ∙ ap ok (sym (attr_addr-short t (take n rest) (ground (arith, length-take n rest))))
]
  where
    long :
        (xs : Bytes) (m : ℕ)
        → drop at (take stop buf) ≡ xs
        → All IsByte xs
        → m ≤ length xs
        → 8 ≤ m
        → leb 8 m ≡ true
        → probe_attribute buf t m at ≡ ok (attr_addr t (take m xs))
    long (z ∷ f ∷ p ∷ q ∷ a ∷ b ∷ c ∷ d ∷ r) (suc (suc (suc (suc (suc (suc (suc (suc m)))))))) w hb
          l k big =
        attribute_long buf stop _ at z f p q a b c d r w big t (omega arith) (omega arith)
          (omega arith) (omega arith)
        ∙ unfold attr_addr in refl
    long _ m w hb l k big = absurd (omega arith)
