-- ===== src/Text/Utf8.antt =====
-- `String::from_utf8_lossy`: the bytes of the text that it returns, by the state machine of UTF-8,
-- where each longest wrong run of bytes becomes the replacement character.
pub mod Encode
use Prim.Native.Char.{code}
use p2p_core.Base.{
  ℕ, zero, suc, ◌≡◌, Bool, true, false, ◌&&◌, [], ◌∷◌, ◌++◌, ◌==◌, if◌then◌else◌, leb, ltb, String,
  All, Bool-cases, ap, append-nil, append_assoc, inl, inr, lt→ltb, refl, sym, ◌<◌, ◌∙◌,
}
use p2p_core.Base.Words.{Bytes}

-- The bytes of an ASCII text.
abbrev pub codes : String → Bytes
codes String.[] = []
codes (String.◌∷◌ c s) = code c ∷ codes s

-- Between two characters; or inside one, with its bytes so far, the range that its next byte must
-- lie in, and the number of bytes to come after that one.
pub data Utf8 : Type 0 where
  between : Utf8
  inside : Bytes → ℕ → ℕ → ℕ → Utf8

-- What a byte starts: nothing, a character of its own, or one whose next byte lies in a range and
-- that has a number of bytes to come after that one.
pub data Lead : Type 0 where
  wrong : Lead
  single : Lead
  longer : ℕ → ℕ → ℕ → Lead

replacement : Bytes
replacement = 0xef ∷ 0xbf ∷ 0xbd ∷ []

within : ℕ → ℕ → ℕ → Bool
within lo hi b = leb lo b && leb b hi

lead : ℕ → Lead
unfolding within
lead b =
    if ltb b 128
    then single
    else if within 0xc2 0xdf b
    then longer 0x80 0xbf 0
    else if b == 0xe0
    then longer 0xa0 0xbf 1
    else if b == 0xed
    then longer 0x80 0x9f 1
    else if within 0xe1 0xef b
    then longer 0x80 0xbf 1
    else if b == 0xf0
    then longer 0x90 0xbf 2
    else if b == 0xf4
    then longer 0x80 0x8f 2
    else if within 0xf1 0xf3 b
    then longer 0x80 0xbf 2
    else wrong

-- The bytes that the text gains, and the next state.
start_char : ℕ → Lead → Bytes × Utf8
unfolding replacement
start_char b wrong = (replacement, between)
start_char b single = (b ∷ [], between)
start_char b (longer lo hi more) = ([], inside (b ∷ []) lo hi more)

go_on : Bytes → ℕ → ℕ → Bytes × Utf8
go_on seen b zero = (seen ++ (b ∷ []), between)
go_on seen b (suc more) = ([], inside (seen ++ (b ∷ [])) 0x80 0xbf more)

feed : Utf8 → ℕ → Bytes × Utf8
unfolding lead start_char go_on within replacement
feed between b = start_char b (lead b)
feed (inside seen lo hi more) b =
    if within lo hi b
    then go_on seen b more
    else (replacement ++ (start_char b (lead b)).0, (start_char b (lead b)).1)

flush : Utf8 → Bytes
unfolding replacement
flush between = []
flush (inside seen lo hi more) = replacement

lossy_from : Utf8 → Bytes → Bytes
unfolding feed flush
lossy_from st [] = flush st
lossy_from st (b ∷ bs) = (feed st b).0 ++ lossy_from (feed st b).1 bs

unfoldable pub from_utf8_lossy : Bytes → Bytes
unfolding lossy_from
from_utf8_lossy bs = lossy_from between bs

-- Whether the bytes are a `str`: no byte is wrong, and the last character is complete.
starts_char : Lead → Bool
starts_char wrong = false
starts_char single = true
starts_char (longer lo hi more) = true

accepts : Utf8 → ℕ → Bool
unfolding lead within starts_char
accepts between b = starts_char (lead b)
accepts (inside seen lo hi more) b = within lo hi b

is_between : Utf8 → Bool
is_between between = true
is_between (inside seen lo hi more) = false

unfoldable pub utf8_from : Utf8 → Bytes → Bool
unfolding accepts feed is_between
utf8_from st [] = is_between st
utf8_from st (b ∷ bs) = if accepts st b then utf8_from (feed st b).1 bs else false

abbrev pub IsUtf8 : Bytes → Type 0
IsUtf8 bs = utf8_from between bs ≡ true

pending : Utf8 → Bytes
pending between = []
pending (inside seen lo hi more) = seen

start_char-pending :
    (b : ℕ) (l : Lead)
    → starts_char l ≡ true
    → (start_char b l).0 ++ pending (start_char b l).1 ≡ b ∷ []
unfolding starts_char start_char pending
start_char-pending b wrong h = cc
start_char-pending b single h = refl
start_char-pending b (longer lo hi more) h = refl

go_on-pending :
    (seen : Bytes) (b more : ℕ)
    → (go_on seen b more).0 ++ pending (go_on seen b more).1 ≡ seen ++ (b ∷ [])
unfolding go_on pending
go_on-pending seen b zero = append-nil (seen ++ (b ∷ []))
go_on-pending seen b (suc more) = refl

-- A byte that is accepted is not lost: the text has it, or the state keeps it.
feed-pending :
    (st : Utf8) (b : ℕ)
    → accepts st b ≡ true
    → (feed st b).0 ++ pending (feed st b).1 ≡ pending st ++ (b ∷ [])
unfolding accepts feed pending
feed-pending between b h = start_char-pending b (lead b) h
feed-pending (inside seen lo hi more) b h = rw h (go_on-pending seen b more)

lossy_from-append :
    (st : Utf8) (a rest : Bytes)
    → utf8_from st a ≡ true
    → lossy_from st (a ++ rest) ≡ pending st ++ (a ++ lossy_from between rest)
unfolding lossy_from utf8_from
lossy_from-append between [] rest h = unfold pending in refl
lossy_from-append (inside seen lo hi more) [] rest h = cc
lossy_from-append st (b ∷ bs) rest h = elim (Bool-cases (accepts st b)) [
  | inl e ↦
      let later : utf8_from (feed st b).1 bs ≡ true = rw e at h in
      ap (λ t. (feed st b).0 ++ t) (lossy_from-append (feed st b).1 bs rest later)
      ∙ sym (append_assoc (feed st b).0 (pending (feed st b).1) (bs ++ lossy_from between rest))
      ∙ ap (λ t. t ++ (bs ++ lossy_from between rest)) (feed-pending st b e)
      ∙ append_assoc (pending st) (b ∷ []) (bs ++ lossy_from between rest)
  | inr e ↦ let no_way : false ≡ true = rw e at h in cc
]

-- The decoder returns a text as it is.
pub from_utf8_lossy-IsUtf8 : (a : Bytes) → IsUtf8 a → from_utf8_lossy a ≡ a
unfolding from_utf8_lossy
from_utf8_lossy-IsUtf8 a h =
    ap (lossy_from between) (sym (append-nil a))
    ∙ lossy_from-append between a [] h
    ∙ (unfold lossy_from pending in append-nil a)

utf8_from-append :
    (st : Utf8) (a b : Bytes) → utf8_from st a ≡ true → IsUtf8 b → utf8_from st (a ++ b) ≡ true
unfolding utf8_from
utf8_from-append between [] b h k = k
utf8_from-append (inside seen lo hi more) [] b h k = cc
utf8_from-append st (c ∷ cs) b h k = elim (Bool-cases (accepts st c)) [
  | inl e ↦
      let later : utf8_from (feed st c).1 cs ≡ true = rw e at h in
      rw e (utf8_from-append (feed st c).1 cs b later k)
  | inr e ↦ let no_way : false ≡ true = rw e at h in cc
]

-- Texts one after the other are a text.
pub append-IsUtf8 : (a b : Bytes) → IsUtf8 a → IsUtf8 b → IsUtf8 (a ++ b)
append-IsUtf8 a b h k = utf8_from-append between a b h k

-- ASCII is UTF-8.
pub ascii-IsUtf8 : (a : Bytes) → All (λ b. b < 128) a → IsUtf8 a
unfolding utf8_from accepts feed lead starts_char start_char
ascii-IsUtf8 [] h = refl
ascii-IsUtf8 (b ∷ bs) h = rw (lt→ltb b 128 h.0) (ascii-IsUtf8 bs h.1)

pub ascii_then : (a b : Bytes) → All (λ c. c < 128) a → IsUtf8 b → IsUtf8 (a ++ b)
ascii_then a b h k = append-IsUtf8 a b (ascii-IsUtf8 a h) k
