-- ===== src/Text.antt =====
-- Texts as Rust's `format!` writes them: numbers, addresses, and joined lists.
pub mod Utf8
pub mod Numbers
pub mod Search
pub mod Chars
pub mod Encodings
use Prim.Native.String
use Prim.Native.String.{◌++◌ as str_append}
use Prim.Native.Char.{Char, code}
use p2p_core.Base.{
  ℕ, zero, suc, ◌≡◌, refl, ◌/◌, ◌%◌, String, List, [], ◌∷◌, ◌==◌, if◌then◌else◌, ltb, Bool, leb,
  ◌&&◌, ◌||◌,
}

infixr 65 ◌⧺◌
-- `+` on texts
abbrev pub ◌⧺◌ : String → String → String
s ⧺ t = str_append s t

digit : ℕ → String
digit d =
    if d == 0
    then "0"
    else if d == 1
    then "1"
    else if d == 2
    then "2"
    else if d == 3
    then "3"
    else if d == 4
    then "4"
    else if d == 5
    then "5"
    else if d == 6
    then "6"
    else if d == 7
    then "7"
    else if d == 8
    then "8"
    else "9"

decimal_loop : ℕ → ℕ → String
decimal_loop zero n = ""
decimal_loop (suc f) n =
    let front = decimal_loop f (n / 10) in if ltb n 10 then digit n else front ⧺ digit (n % 10)

-- A number below 2 ^ 64 in decimal; 20 digits are enough for it.
unfoldable pub show_nat : ℕ → String
unfolding decimal_loop digit
show_nat n = decimal_loop 20 n

-- `parts.join(sep)`
unfoldable pub join : String → List String → String
join sep [] = ""
join sep (s ∷ []) = s
join sep (s ∷ t ∷ ts) = s ⧺ sep ⧺ join sep (t ∷ ts)

-- `char::is_whitespace`, by the code point.
unfoldable pub is_whitespace : ℕ → Bool
is_whitespace c =
    (leb 9 c && leb c 13)
    || (c == 32)
    || (c == 0x85)
    || (c == 0xa0)
    || (c == 0x1680)
    || (leb 0x2000 c && leb c 0x200a)
    || (c == 0x2028)
    || (c == 0x2029)
    || (c == 0x202f)
    || (c == 0x205f)
    || (c == 0x3000)

trim_start : String → String
trim_start String.[] = String.[]
trim_start (String.◌∷◌ c s) =
    let rest = trim_start s in if is_whitespace (code c) then rest else String.◌∷◌ c s

before_space : Bool → Char → String → String
before_space space c String.[] = if space then String.[] else String.◌∷◌ c String.[]
before_space space c (String.◌∷◌ d s) = String.◌∷◌ c (String.◌∷◌ d s)

trim_end : String → String
trim_end String.[] = String.[]
trim_end (String.◌∷◌ c s) = before_space (is_whitespace (code c)) c (trim_end s)

-- `text.trim()`
unfoldable pub trim : String → String
unfolding trim_start trim_end is_whitespace before_space
trim s = trim_end (trim_start s)

trimmed : trim " a b\t" ≡ "a b"
unfolding trim
trimmed = refl

show_port : show_nat 25565 ≡ "25565"
unfolding show_nat
show_port = refl
