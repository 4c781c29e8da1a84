-- ===== src/Text/Utf8/Encode.antt =====
-- The bytes of a text's characters are UTF-8.
use p2p_core.Base.{
  ℕ, All, Bool-cases, [], arith, if◌then◌else◌, inl, inr, ltb, refl, ◌%◌, ◌++◌, ◌+◌, ◌/◌, ◌<◌, ◌∷◌,
  ◌≤◌, ◌⊎◌, false, ◌≡◌,
}
use p2p_core.Base.Words.{Bytes}
use p2p_core.Text.Chars.{Chars}
use p2p_core.Text.Utf8.{
  IsUtf8, append-IsUtf8, utf8_from, accepts, feed, lead, starts_char, start_char, go_on, is_between,
  within, Utf8,
}

-- A Unicode scalar value.
abbrev pub IsScalar : ℕ → Type 0
IsScalar c = (c < 0xd800) ⊎ (0xe000 ≤ c × c < 0x110000)

abbrev pub encode_char : ℕ → Bytes
encode_char c =
    if ltb c 0x80
    then c ∷ []
    else if ltb c 0x800
    then (0xc0 + c / 64) ∷ (0x80 + c % 64) ∷ []
    else if ltb c 0x10000
    then (0xe0 + c / 4096) ∷ (0x80 + c / 64 % 64) ∷ (0x80 + c % 64) ∷ []
    else (0xf0 + c / 262144) ∷ (0x80 + c / 4096 % 64) ∷ (0x80 + c / 64 % 64) ∷ (0x80 + c % 64) ∷ []

abbrev pub utf8 : Chars → Bytes
utf8 [] = []
utf8 (c ∷ cs) = encode_char c ++ utf8 cs

encode_char-IsUtf8 : (c : ℕ) → IsScalar c → IsUtf8 (encode_char c)
unfolding utf8_from accepts feed lead starts_char start_char go_on is_between within
encode_char-IsUtf8 c h = elim (Bool-cases (ltb c 0x80)) [
  | inl one ↦ rw one (ground arith)
  | inr one ↦ elim (Bool-cases (ltb c 0x800)) [
    | inl two ↦ rw (one, two) (ground arith)
    | inr two ↦ elim (Bool-cases (ltb c 0x10000)) [
      | inl three ↦ rw (one, two, three) (ground arith)
      | inr three ↦ rw (one, two, three) (ground arith)
    ]
  ]
]

pub utf8-IsUtf8 : (t : Chars) → All IsScalar t → IsUtf8 (utf8 t)
utf8-IsUtf8 [] h = unfold utf8_from is_between in refl
utf8-IsUtf8 (c ∷ cs) h =
    append-IsUtf8 (encode_char c) (utf8 cs) (encode_char-IsUtf8 c h.0) (utf8-IsUtf8 cs h.1)

-- A byte from inside a character starts none.
pub inside-utf8_from :
    (b : ℕ) (bs : Bytes) → 0x80 ≤ b → b < 0xc0 → utf8_from Utf8.between (b ∷ bs) ≡ false
unfolding utf8_from accepts lead starts_char within
inside-utf8_from b bs h k =
    let wrong_lead : accepts Utf8.between b ≡ false = ground arith in rw wrong_lead refl

-- A text that is not empty has a first byte.
pub utf8-first : (c : ℕ) (cs : Chars) → (b : ℕ) × (bs : Bytes) × (utf8 (c ∷ cs) ≡ b ∷ bs)
utf8-first c cs = elim (Bool-cases (ltb c 0x80)) [
  | inl one ↦ (c, utf8 cs, rw one refl)
  | inr one ↦ elim (Bool-cases (ltb c 0x800)) [
    | inl two ↦ (0xc0 + c / 64, (0x80 + c % 64) ∷ utf8 cs, rw (one, two) refl)
    | inr two ↦ elim (Bool-cases (ltb c 0x10000)) [
      | inl three ↦ (
        0xe0 + c / 4096,
        (0x80 + c / 64 % 64) ∷ (0x80 + c % 64) ∷ utf8 cs,
        rw (one, two, three) refl,
      )
      | inr three ↦ (
        0xf0 + c / 262144,
        (0x80 + c / 4096 % 64) ∷ (0x80 + c / 64 % 64) ∷ (0x80 + c % 64) ∷ utf8 cs,
        rw (one, two, three) refl,
      )
    ]
  ]
]
