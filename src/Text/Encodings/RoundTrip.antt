-- ===== src/Text/Encodings/RoundTrip.antt =====
-- A text in UTF-8 or UTF-16 is decoded to itself.
use p2p_core.Base.{
  ℕ, Bool-cases, List, [], arith, if◌then◌else◌, inl, inr, ltb, none, refl, some, ◌%◌, ◌++◌, ◌+◌,
  ◌-◌, ◌/◌, ◌<◌, ◌∷◌, ◌≡◌, All, Option, ap, suc, ◌*◌, ◌∙◌,
}
use p2p_core.Base.Words.{Bytes}
use p2p_core.Text.Chars.{Chars}
use p2p_core.Text.Encodings.{
  chars_of, chars_from, next_char, emit_char, begin_char, from_utf16_lossy, utf16_from, feed_unit,
  single_unit, is_high, is_low,
}
use p2p_core.Text.Utf8.Encode.{utf8, IsScalar, encode_char}

abbrev pub char_units : ℕ → List ℕ
char_units c =
    if ltb c 0x10000
    then c ∷ []
    else (0xd800 + (c - 0x10000) / 0x400) ∷ (0xdc00 + (c - 0x10000) % 0x400) ∷ []

abbrev pub utf16 : Chars → List ℕ
utf16 [] = []
utf16 (c ∷ cs) = char_units c ++ utf16 cs

chars_step :
    (c more b : ℕ) (bs : Bytes) {c' more' : ℕ}
    → next_char c more b ≡ (c', more')
    → chars_from c more (b ∷ bs) ≡ emit_char (c', more') (chars_from c' more' bs)
unfolding chars_from
chars_step c more b bs e = rw e refl

-- The bytes that follow the first one.
tail_step :
    (c more b : ℕ) (bs : Bytes)
    → chars_from c (suc more) (b ∷ bs)
      ≡ emit_char (c * 64 + b % 64, more) (chars_from (c * 64 + b % 64) more bs)
tail_step c more b bs = chars_step c (suc more) b bs (unfold next_char in refl)

single-begin_char : (c : ℕ) → c < 0x80 → begin_char c ≡ (c, 0)
unfolding begin_char
single-begin_char c h = ground arith

two-begin_char : (k : ℕ) → k < 32 → begin_char (0xc0 + k) ≡ (k, 1)
unfolding begin_char
two-begin_char k h = ground arith

three-begin_char : (k : ℕ) → k < 16 → begin_char (0xe0 + k) ≡ (k, 2)
unfolding begin_char
three-begin_char k h = ground arith

four-begin_char : (k : ℕ) → k < 8 → begin_char (0xf0 + k) ≡ (k, 3)
unfolding begin_char
four-begin_char k h = ground arith

-- The character before does not matter where no byte of it is to come.
chars_from-start :
    (d b : ℕ) (bs : Bytes) {c more : ℕ}
    → begin_char b ≡ (c, more)
    → chars_from d 0 (b ∷ bs) ≡ emit_char (c, more) (chars_from c more bs)
chars_from-start d b bs e = chars_step d 0 b bs (unfold next_char in e)

chars_two :
    (d k x c : ℕ) (rest : Bytes)
    → k < 32
    → x < 64
    → k * 64 + x ≡ c
    → chars_from d 0 ((0xc0 + k) ∷ (0x80 + x) ∷ rest) ≡ c ∷ chars_from c 0 rest
unfolding emit_char
chars_two d k x c rest h j e =
    chars_from-start d (0xc0 + k) ((0x80 + x) ∷ rest) (two-begin_char k h)
    ∙ tail_step k 0 (0x80 + x) rest
    ∙ ap (λ v. v ∷ chars_from v 0 rest) (omega arith)

chars_three :
    (d k x y c : ℕ) (rest : Bytes)
    → k < 16
    → x < 64
    → y < 64
    → (k * 64 + x) * 64 + y ≡ c
    → chars_from d 0 ((0xe0 + k) ∷ (0x80 + x) ∷ (0x80 + y) ∷ rest) ≡ c ∷ chars_from c 0 rest
unfolding emit_char
chars_three d k x y c rest h i j e =
    chars_from-start d (0xe0 + k) ((0x80 + x) ∷ (0x80 + y) ∷ rest) (three-begin_char k h)
    ∙ tail_step k 1 (0x80 + x) ((0x80 + y) ∷ rest)
    ∙ tail_step (k * 64 + (0x80 + x) % 64) 0 (0x80 + y) rest
    ∙ ap (λ v. v ∷ chars_from v 0 rest) (omega arith)

chars_four :
    (d k x y z c : ℕ) (rest : Bytes)
    → k < 8
    → x < 64
    → y < 64
    → z < 64
    → ((k * 64 + x) * 64 + y) * 64 + z ≡ c
    → chars_from d 0 ((0xf0 + k) ∷ (0x80 + x) ∷ (0x80 + y) ∷ (0x80 + z) ∷ rest)
      ≡ c ∷ chars_from c 0 rest
unfolding emit_char
chars_four d k x y z c rest h i j l e =
    chars_from-start d (0xf0 + k) ((0x80 + x) ∷ (0x80 + y) ∷ (0x80 + z) ∷ rest)
      (four-begin_char k h)
    ∙ tail_step k 2 (0x80 + x) ((0x80 + y) ∷ (0x80 + z) ∷ rest)
    ∙ tail_step (k * 64 + (0x80 + x) % 64) 1 (0x80 + y) ((0x80 + z) ∷ rest)
    ∙ tail_step ((k * 64 + (0x80 + x) % 64) * 64 + (0x80 + y) % 64) 0 (0x80 + z) rest
    ∙ ap (λ v. v ∷ chars_from v 0 rest) (omega arith)

chars_from-encode_char :
    (c : ℕ) (rest : Bytes) (d : ℕ)
    → IsScalar c
    → chars_from d 0 (encode_char c ++ rest) ≡ c ∷ chars_from c 0 rest
unfolding emit_char
chars_from-encode_char c rest d h = elim (Bool-cases (ltb c 0x80)) [
  | inl one ↦ rw one (chars_from-start d c rest (single-begin_char c (ground arith)))
  | inr one ↦ elim (Bool-cases (ltb c 0x800)) [
    | inl two ↦
        rw (one, two)
          (chars_two d (c / 64) (c % 64) c rest (ground arith) (omega arith) (omega arith))
    | inr two ↦ elim (Bool-cases (ltb c 0x10000)) [
      | inl three ↦
          rw (one, two, three)
            (chars_three d (c / 4096) (c / 64 % 64) (c % 64) c rest (ground arith) (omega arith)
              (omega arith) (omega arith))
      | inr three ↦
          rw (one, two, three)
            (chars_four d (c / 262144) (c / 4096 % 64) (c / 64 % 64) (c % 64) c rest (ground arith)
              (omega arith) (omega arith) (omega arith) (omega arith))
    ]
  ]
]

utf16_step :
    (st : Option ℕ) (u : ℕ) (us : List ℕ) {out : Chars} {st' : Option ℕ}
    → feed_unit st u ≡ (out, st')
    → utf16_from st (u ∷ us) ≡ out ++ utf16_from st' us
unfolding utf16_from
utf16_step none u us e = rw e refl
utf16_step (some h) u us e = rw e refl

from_units :
    (c : ℕ) (rest : List ℕ)
    → IsScalar c
    → utf16_from none (char_units c ++ rest) ≡ c ∷ utf16_from none rest
from_units c rest h = elim (Bool-cases (ltb c 0x10000)) [
  | inl e ↦
      let plain : feed_unit none c ≡ (c ∷ [], none) =
        unfold feed_unit single_unit is_high is_low in ground arith in
      rw e (utf16_step none c rest plain)
  | inr e ↦
      let high : ℕ = 0xd800 + (c - 0x10000) / 0x400 in
      let low : ℕ = 0xdc00 + (c - 0x10000) % 0x400 in
      let first : feed_unit none high ≡ ([], some high) =
        unfold feed_unit single_unit is_high is_low in ground arith in
      let second : feed_unit (some high) low ≡ (c ∷ [], none) =
        unfold feed_unit is_low in ground arith in
      rw e (utf16_step none high (low ∷ rest) first ∙ utf16_step (some high) low rest second)
]

utf16_from-utf16 : (t : Chars) → All IsScalar t → utf16_from none (utf16 t) ≡ t
utf16_from-utf16 [] h = unfold utf16_from in refl
utf16_from-utf16 (c ∷ cs) h =
    from_units c (utf16 cs) h.0 ∙ ap (λ t. c ∷ t) (utf16_from-utf16 cs h.1)

pub from_utf16_lossy-utf16 : (t : Chars) → All IsScalar t → from_utf16_lossy (utf16 t) ≡ t
unfolding from_utf16_lossy
from_utf16_lossy-utf16 t h = utf16_from-utf16 t h

chars_from-utf8 : (t : Chars) (d : ℕ) → All IsScalar t → chars_from d 0 (utf8 t) ≡ t
chars_from-utf8 [] d h = unfold chars_from in refl
chars_from-utf8 (c ∷ cs) d h =
    chars_from-encode_char c (utf8 cs) d h.0 ∙ ap (λ t. c ∷ t) (chars_from-utf8 cs c h.1)

pub chars_of-utf8 : (t : Chars) → All IsScalar t → chars_of (utf8 t) ≡ t
unfolding chars_of
chars_of-utf8 t h = chars_from-utf8 t 0 h
