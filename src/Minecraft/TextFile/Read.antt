-- ===== src/Minecraft/TextFile/Read.antt =====
-- A file in UTF-8 or UTF-16 is read as its text.
use p2p_core.Base.{
  ℕ, All, List, [], ap, ap₂, arith, false, refl, ◌%◌, ◌++◌, ◌/◌, ◌∙◌, ◌∷◌, ◌≡◌, ◌≢◌, Bool, drop,
  inl, inr, length, ltb, lt→ltb, some, true, ◌-◌, ◌<◌, ◌≤◌, ◌⊎◌,
}
use p2p_core.Base.Words.{Bytes, from_be, from_le}
use p2p_core.Text.Chars.{Chars}
use p2p_core.Text.Encodings.{chars_of, from_utf16_lossy}
use p2p_core.Text.Encodings.RoundTrip.{utf16, chars_of-utf8, from_utf16_lossy-utf16}
use p2p_core.Text.Utf8.Encode.{IsScalar, utf8, encode_char, utf8-IsUtf8, inside-utf8_from}
use p2p_core.Minecraft.TextFile.{
  is_empty, read_text_lossy, decode_text, units_of, read_limit, read_part,
}
use p2p_core.Text.Utf8.{from_utf8_lossy-IsUtf8}
use p2p_core.Text.Search.{starts_with}

pub data Encoding : Type 0 where
  plain_utf8 marked_utf8 utf16_le utf16_be : Encoding

abbrev pub bytes_le : List ℕ → Bytes
bytes_le [] = []
bytes_le (u ∷ us) = u % 256 ∷ u / 256 ∷ bytes_le us

abbrev pub bytes_be : List ℕ → Bytes
bytes_be [] = []
bytes_be (u ∷ us) = u / 256 ∷ u % 256 ∷ bytes_be us

-- The file of a text, with the mark of its encoding.
abbrev pub encoded : Encoding → Chars → Bytes
encoded plain_utf8 t = utf8 t
encoded marked_utf8 t = 0xef ∷ 0xbb ∷ 0xbf ∷ utf8 t
encoded utf16_le t = 0xff ∷ 0xfe ∷ bytes_le (utf16 t)
encoded utf16_be t = 0xfe ∷ 0xff ∷ bytes_be (utf16 t)

-- The text does not start with what would be taken for a mark.
abbrev pub StartsUnmarked : Encoding → Chars → Type 0
StartsUnmarked plain_utf8 [] = Unit
StartsUnmarked plain_utf8 (c ∷ cs) = c ≢ 0xfeff
StartsUnmarked marked_utf8 t = Unit
StartsUnmarked utf16_le t = Unit
StartsUnmarked utf16_be t = Unit

units_of-bytes_le : (us : List ℕ) → units_of from_le (bytes_le us) ≡ us
unfolding units_of
units_of-bytes_le [] = refl
units_of-bytes_le (u ∷ us) = ap₂ (λ v vs. v ∷ vs) (omega arith) (units_of-bytes_le us)

units_of-bytes_be : (us : List ℕ) → units_of from_be (bytes_be us) ≡ us
unfolding units_of
units_of-bytes_be [] = refl
units_of-bytes_be (u ∷ us) = ap₂ (λ v vs. v ∷ vs) (omega arith) (units_of-bytes_be us)

-- A text in UTF-8 starts with no mark of UTF-16, and with that of UTF-8 only for one character.
not_mark_16 :
    (c : ℕ) (rest : Bytes)
    → IsScalar c
    → (starts_with (0xff ∷ 0xfe ∷ []) (encode_char c ++ rest) ≡ false)
      × (starts_with (0xfe ∷ 0xff ∷ []) (encode_char c ++ rest) ≡ false)
not_mark_16 c rest h = (ground arith, ground arith)

not_mark_8 :
    (c : ℕ) (rest : Bytes)
    → IsScalar c
    → c ≢ 0xfeff
    → starts_with (0xef ∷ 0xbb ∷ 0xbf ∷ []) (encode_char c ++ rest) ≡ false
not_mark_8 c rest h k = ground arith

not_empty : (c : ℕ) (rest : Bytes) → is_empty (encode_char c ++ rest) ≡ false
not_empty c rest = ground arith

read_part-small :
    (is_json : Bool) (file : Bytes)
    → (is_json ≡ true) ⊎ (length file ≤ 32768)
    → read_part is_json file ≡ file
unfolding read_part
read_part-small true file h = refl
read_part-small false file (inl e) = cc
read_part-small false file (inr small) =
    let fits : ltb read_limit (length file) ≡ false = ground arith in rw fits refl

-- The end of a log that starts inside a character is neither marked nor UTF-8.
abbrev pub StartsInside : Bytes → Type 0
StartsInside [] = ⊥
StartsInside (b ∷ bs) = (0x80 ≤ b) × (b < 0xc0)

module _ (windows_1251 : Bytes → Chars) where
  decode_text-utf8 :
      (c : ℕ) (cs : Chars)
      → All IsScalar (c ∷ cs)
      → c ≢ 0xfeff
      → decode_text windows_1251 (utf8 (c ∷ cs)) ≡ c ∷ cs
  unfolding decode_text
  decode_text-utf8 c cs h k =
      let (le, be) = not_mark_16 c (utf8 cs) h.0 in
      rw (not_empty c (utf8 cs), not_mark_8 c (utf8 cs) h.0 k, le, be, utf8-IsUtf8 (c ∷ cs) h)
        (chars_of-utf8 (c ∷ cs) h)

  decode_text-encoded :
      (e : Encoding) (t : Chars)
      → All IsScalar t
      → StartsUnmarked e t
      → decode_text windows_1251 (encoded e t) ≡ t
  decode_text-encoded plain_utf8 [] h k = unfold decode_text in refl
  decode_text-encoded plain_utf8 (c ∷ cs) h k = decode_text-utf8 c cs h k
  decode_text-encoded marked_utf8 t h k =
      unfold decode_text in
      ap chars_of (from_utf8_lossy-IsUtf8 (utf8 t) (utf8-IsUtf8 t h)) ∙ chars_of-utf8 t h
  decode_text-encoded utf16_le t h k =
      unfold decode_text in
      ap from_utf16_lossy (units_of-bytes_le (utf16 t)) ∙ from_utf16_lossy-utf16 t h
  decode_text-encoded utf16_be t h k =
      unfold decode_text in
      ap from_utf16_lossy (units_of-bytes_be (utf16 t)) ∙ from_utf16_lossy-utf16 t h

  -- A file is read as its text in each of four encodings, UTF-8 with and without its mark and UTF-16 in
  -- both orders, if it is a JSON file or has at most 32 KB, and if a text without a mark does not start
  -- with the character of the mark.
  pub read_text_lossy-encoded :
      (e : Encoding) (is_json : Bool) (t : Chars)
      → All IsScalar t
      → StartsUnmarked e t
      → (is_json ≡ true) ⊎ (length (encoded e t) ≤ 32768)
      → read_text_lossy windows_1251 is_json (some (encoded e t)) ≡ some t
  unfolding read_text_lossy
  read_text_lossy-encoded e is_json t h k small =
      ap (λ b. some (decode_text windows_1251 b)) (read_part-small is_json (encoded e t) small)
      ∙ ap some (decode_text-encoded e t h k)

  decode_text-inside :
      (bs : Bytes) → StartsInside bs → decode_text windows_1251 bs ≡ windows_1251 bs
  unfolding decode_text
  decode_text-inside [] h = absurd h
  decode_text-inside (b ∷ bs) h =
      let no_8 : starts_with (0xef ∷ 0xbb ∷ 0xbf ∷ []) (b ∷ bs) ≡ false = ground (arith, h) in
      let no_le : starts_with (0xff ∷ 0xfe ∷ []) (b ∷ bs) ≡ false = ground (arith, h) in
      let no_be : starts_with (0xfe ∷ 0xff ∷ []) (b ∷ bs) ≡ false = ground (arith, h) in
      rw (no_8, no_le, no_be, inside-utf8_from b bs h.0 h.1) refl

  -- A log of more than 32 KB is read as Windows-1251 where its last 32 KB start inside a character of
  -- UTF-8.
  pub read_text_lossy-cut :
      (file : Bytes)
      → 32768 < length file
      → StartsInside (drop (length file - 32768) file)
      → read_text_lossy windows_1251 false (some file)
        ≡ some (windows_1251 (drop (length file - 32768) file))
  unfolding read_text_lossy read_part
  read_text_lossy-cut file long h =
      rw (lt→ltb read_limit (length file) long)
        (ap some (decode_text-inside (drop (length file - 32768) file) h))
