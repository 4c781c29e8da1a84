-- ===== src/Text/Encodings.antt =====
-- Texts from their bytes: the characters of a `str`, and `String::from_utf16_lossy`.
pub mod RoundTrip
use p2p_core.Base.{
  ℕ, Bool, List, Option, [], if◌then◌else◌, leb, ltb, none, some, suc, zero, ◌%◌, ◌&&◌, ◌*◌, ◌++◌,
  ◌+◌, ◌-◌, ◌∷◌,
}
use p2p_core.Base.Words.{Bytes}
use p2p_core.Text.Chars.{Chars}

-- The characters of a `str`, by the character so far and the number of its bytes to come.
begin_char : ℕ → ℕ × ℕ
begin_char b =
    if ltb b 0x80
    then (b, 0)
    else if ltb b 0xe0
    then (b % 32, 1)
    else if ltb b 0xf0
    then (b % 16, 2)
    else (b % 8, 3)

emit_char : ℕ × ℕ → Chars → Chars
emit_char (c, zero) cs = c ∷ cs
emit_char (c, suc more) cs = cs

next_char : ℕ → ℕ → ℕ → ℕ × ℕ
unfolding begin_char
next_char c zero b = begin_char b
next_char c (suc more) b = (c * 64 + b % 64, more)

chars_from : ℕ → ℕ → Bytes → Chars
unfolding next_char emit_char
chars_from c more [] = []
chars_from c more (b ∷ bs) =
    let next = next_char c more b in emit_char next (chars_from next.0 next.1 bs)

unfoldable pub chars_of : Bytes → Chars
unfolding chars_from
chars_of bs = chars_from 0 0 bs

replacement_char : ℕ
replacement_char = 0xfffd

is_high : ℕ → Bool
is_high u = leb 0xd800 u && leb u 0xdbff

is_low : ℕ → Bool
is_low u = leb 0xdc00 u && leb u 0xdfff

-- What a unit gives where no pair is begun, and the first half of a pair that it begins.
single_unit : ℕ → Chars × Option ℕ
unfolding is_high is_low replacement_char
single_unit u =
    if is_high u
    then ([], some u)
    else if is_low u
    then (replacement_char ∷ [], none)
    else (u ∷ [], none)

feed_unit : Option ℕ → ℕ → Chars × Option ℕ
unfolding single_unit is_low replacement_char
feed_unit none u = single_unit u
feed_unit (some high) u =
    if is_low u
    then ((0x10000 + (high - 0xd800) * 0x400 + (u - 0xdc00)) ∷ [], none)
    else (replacement_char ∷ (single_unit u).0, (single_unit u).1)

utf16_from : Option ℕ → List ℕ → Chars
unfolding feed_unit replacement_char
utf16_from none [] = []
utf16_from (some high) [] = replacement_char ∷ []
utf16_from st (u ∷ us) = (feed_unit st u).0 ++ utf16_from (feed_unit st u).1 us

unfoldable pub from_utf16_lossy : List ℕ → Chars
unfolding utf16_from
from_utf16_lossy us = utf16_from none us
