-- ===== src/Text/Chars.antt =====
-- Texts as their characters, by code point: their lines, `trim`, and the searches for a part.
pub mod Lines
pub mod Trim
pub mod Native
use p2p_core.Base.{
  ℕ, Bool, List, Option, [], drop, if◌then◌else◌, length, ltb, none, not, refl, some, ◌++◌, ◌+◌,
  ◌==◌, ◌∷◌, ◌≡◌,
}
use p2p_core.Text.{is_whitespace}
use p2p_core.Text.Search.{starts_with}

abbrev pub Chars : Type 0
Chars = List ℕ

-- `text.len()`: the bytes of the text in UTF-8.
abbrev char_len : ℕ → ℕ
char_len c = if ltb c 0x80 then 1 else if ltb c 0x800 then 2 else if ltb c 0x10000 then 3 else 4

abbrev pub text_bytes : Chars → ℕ
text_bytes [] = 0
text_bytes (c ∷ cs) = char_len c + text_bytes cs

drop_space : Chars → Chars
drop_space [] = []
drop_space (c ∷ cs) = let rest = drop_space cs in if is_whitespace c then rest else c ∷ cs

keep_space : Bool → ℕ → Chars → Chars
keep_space space c [] = if space then [] else c ∷ []
keep_space space c (d ∷ cs) = c ∷ d ∷ cs

drop_space_end : Chars → Chars
unfolding keep_space
drop_space_end [] = []
drop_space_end (c ∷ cs) = keep_space (is_whitespace c) c (drop_space_end cs)

-- `text.trim()`
unfoldable pub trim_chars : Chars → Chars
unfolding drop_space drop_space_end
trim_chars cs = drop_space_end (drop_space cs)

-- `chars().take_while(..)`
unfoldable pub take_while : (ℕ → Bool) → Chars → Chars
take_while p [] = []
take_while p (c ∷ cs) = let rest = take_while p cs in if p c then c ∷ rest else []

not_space : ℕ → Bool
not_space c = not (is_whitespace c)

word_of : Chars → Option Chars
word_of [] = none
word_of (c ∷ cs) = some (c ∷ cs)

-- `text.split_whitespace().next()`
unfoldable pub first_word : Chars → Option Chars
unfolding drop_space take_while not_space word_of
first_word cs = word_of (take_while not_space (drop_space cs))

after_char : ℕ → Option (Chars × Chars) → Option (Chars × Chars)
after_char c none = none
after_char c (some (front, back)) = some (c ∷ front, back)

-- `text.split_once(part)`: what stands before the first place of the part, and what behind it.
unfoldable pub split_text : Chars → Chars → Option (Chars × Chars)
unfolding after_char
split_text part [] = if starts_with part [] then some ([], []) else none
split_text part (c ∷ cs) =
    let rest = split_text part cs in
    if starts_with part (c ∷ cs) then some ([], drop (length part) (c ∷ cs)) else after_char c rest

-- The lines: each ends at `\n`, of which the last may lack one, and loses a `\r` before the `\n`.
drop_return : Chars → Chars
drop_return [] = []
drop_return (c ∷ []) = if c == 13 then [] else c ∷ []
drop_return (c ∷ d ∷ cs) = c ∷ drop_return (d ∷ cs)

last_line : Chars → List Chars
last_line [] = []
last_line (c ∷ cs) = (c ∷ cs) ∷ []

lines_from : Chars → Chars → List Chars
unfolding drop_return last_line
lines_from line [] = last_line line
lines_from line (c ∷ cs) =
    let next = lines_from [] cs in
    let rest = lines_from (line ++ (c ∷ [])) cs in if c == 10 then drop_return line ∷ next else rest

unfoldable pub lines : Chars → List Chars
unfolding lines_from
lines cs = lines_from [] cs

two_lines : lines (97 ∷ 13 ∷ 10 ∷ 98 ∷ 13 ∷ []) ≡ (97 ∷ []) ∷ (98 ∷ 13 ∷ []) ∷ []
unfolding lines
two_lines = refl
