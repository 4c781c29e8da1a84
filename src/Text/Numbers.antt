-- ===== src/Text/Numbers.antt =====
-- Texts as bytes: `split` at a separator, numbers printed in decimal, and `parse` of them.
use native.Mathlib.Nat.{pow-suc}
use p2p_core.Base.{
  ℕ, ==_iff, All, Bool, List, Option, [], arith, false, if◌then◌else◌, leb, ltb, none, refl, some,
  suc, zero, ◌%◌, ◌&&◌, ◌*◌, ◌++◌, ◌+◌, ◌-◌, ◌/◌, ◌<◌, ◌==◌, ◌^◌, ◌∷◌, ◌≡◌, ◌≤◌, Bool-cases, inl,
  inr, All-append, ap, ◌∙◌, ◌⊎◌, ◌≢◌,
}
use p2p_core.Base.Words.{Bytes}
use p2p_core.Text.Utf8.{IsUtf8, ascii-IsUtf8}

-- `text.split(sep).collect()`
add_first : ℕ → List Bytes → List Bytes
add_first b [] = (b ∷ []) ∷ []
add_first b (part ∷ parts) = (b ∷ part) ∷ parts

unfoldable pub split : ℕ → Bytes → List Bytes
unfolding add_first
split sep [] = [] ∷ []
split sep (b ∷ bs) = let rest = split sep bs in if b == sep then [] ∷ rest else add_first b rest

abbrev pub Lacks : ℕ → Bytes → Type 0
Lacks sep a = All (λ b. b ≢ sep) a

pub ne_test : (b sep : ℕ) → b ≢ sep → (b == sep) ≡ false
ne_test b sep h = ground (arith, h)

-- A part without the separator, then the separator.
pub split-append :
    (sep : ℕ) (a rest : Bytes) → Lacks sep a → split sep (a ++ (sep ∷ rest)) ≡ a ∷ split sep rest
unfolding split
split-append sep [] rest h = rw ((==_iff sep sep).1 refl) refl
split-append sep (b ∷ bs) rest h =
    rw (ne_test b sep h.0, split-append sep bs rest h.1, add_first) refl

pub split_cons :
    (sep : ℕ) (a rest : Bytes) {parts : List Bytes}
    → Lacks sep a
    → split sep rest ≡ parts
    → split sep (a ++ (sep ∷ rest)) ≡ a ∷ parts
split_cons sep a rest h e = split-append sep a rest h ∙ ap (λ t. a ∷ t) e

-- The last part.
pub split-single : (sep : ℕ) (a : Bytes) → Lacks sep a → split sep a ≡ a ∷ []
unfolding split
split-single sep [] h = refl
split-single sep (b ∷ bs) h = rw (ne_test b sep h.0, split-single sep bs h.1, add_first) refl

-- `n.to_string()` of an unsigned number below 2 ^ 64; 20 digits are enough for it.
decimal_loop : ℕ → ℕ → Bytes
decimal_loop zero n = []
decimal_loop (suc f) n =
    let front = decimal_loop f (n / 10) in
    if ltb n 10 then (48 + n) ∷ [] else front ++ ((48 + n % 10) ∷ [])

unfoldable pub decimal : ℕ → Bytes
unfolding decimal_loop
decimal n = decimal_loop 20 n

is_digit : ℕ → Bool
is_digit b = leb 48 b && ltb b 58

-- The digits of a number below `limit`: `none` on another byte and on overflow.
digits_from : ℕ → ℕ → Bytes → Option ℕ
unfolding is_digit
digits_from limit acc [] = some acc
digits_from limit acc (b ∷ bs) =
    let value = acc * 10 + (b - 48) in
    let rest = digits_from limit value bs in
    if is_digit b then if ltb value limit then rest else none else none

-- `text.parse()` to an unsigned number below `limit`, which a plus sign may start.
parse_digits : ℕ → Bytes → Option ℕ
unfolding digits_from
parse_digits limit [] = none
parse_digits limit (b ∷ bs) = digits_from limit 0 (b ∷ bs)

unfoldable pub parse_uint : ℕ → Bytes → Option ℕ
unfolding parse_digits
parse_uint limit [] = none
parse_uint limit (b ∷ bs) = if b == 43 then parse_digits limit bs else parse_digits limit (b ∷ bs)

digits_from-append :
    (limit acc d : ℕ) (bs : Bytes) {v : ℕ}
    → d < 10
    → v * 10 + d < limit
    → digits_from limit acc bs ≡ some v
    → digits_from limit acc (bs ++ ((48 + d) ∷ [])) ≡ some (v * 10 + d)
unfolding digits_from is_digit
digits_from-append limit acc d [] h k e = ground arith
digits_from-append limit acc d (b ∷ bs) h k e =
    ground (arith, digits_from-append limit (acc * 10 + (b - 48)) d bs h k)

-- The first byte is a digit, so it is no sign.
abbrev StartsByDigit : Bytes → Type 0
StartsByDigit bs = (c : ℕ) × (cs : Bytes) × (bs ≡ c ∷ cs) × (48 ≤ c) × (c < 58)

snoc-StartsByDigit : (bs : Bytes) (d : ℕ) → StartsByDigit bs → StartsByDigit (bs ++ (d ∷ []))
snoc-StartsByDigit bs d (c, cs, e, lo, hi) = (c, cs ++ (d ∷ []), rw e refl, lo, hi)

decimal_loop-StartsByDigit : (f n : ℕ) → StartsByDigit (decimal_loop (suc f) n)
unfolding decimal_loop
decimal_loop-StartsByDigit zero n = elim (Bool-cases (ltb n 10)) [
  | inl e ↦ (48 + n, [], rw e refl, omega arith, ground arith)
  | inr e ↦ (48 + n % 10, [], rw e refl, omega arith, omega arith)
]
decimal_loop-StartsByDigit (suc f) n = elim (Bool-cases (ltb n 10)) [
  | inl e ↦ (48 + n, [], rw e refl, omega arith, ground arith)
  | inr e ↦
      let ih =
        snoc-StartsByDigit (decimal_loop (suc f) (n / 10)) (48 + n % 10)
          (decimal_loop-StartsByDigit f (n / 10)) in
      (ih.0, ih.1, rw e ih.2, ih.3, ih.4)
]

digits_from-decimal_loop :
    (limit f n : ℕ)
    → n < limit
    → n < 10 ^ suc f
    → digits_from limit 0 (decimal_loop (suc f) n) ≡ some n
digits_from-decimal_loop limit zero n h k = unfold decimal_loop digits_from is_digit in ground arith
digits_from-decimal_loop limit (suc f) n h k = elim (Bool-cases (ltb n 10)) [
  | inl e ↦ unfold decimal_loop digits_from is_digit in ground arith
  | inr e ↦
      let small : n / 10 < 10 ^ suc f = omega (arith, pow-suc 10 (suc f)) in
      let back : n / 10 * 10 + n % 10 ≡ n = omega arith in
      let ih = digits_from-decimal_loop limit f (n / 10) (omega arith) small in
      let last =
        digits_from-append limit 0 (n % 10) (decimal_loop (suc f) (n / 10)) (omega arith)
          (omega arith) ih in
      let opened : decimal_loop (suc (suc f)) n
          ≡ decimal_loop (suc f) (n / 10) ++ ((48 + n % 10) ∷ []) =
        unfold decimal_loop in rw e refl in
      ap (digits_from limit 0) opened ∙ last ∙ ap some back
]

-- A number is read back from its decimal digits.
pub parse_uint-decimal :
    (limit n : ℕ) → n < limit → n < 10 ^ 20 → parse_uint limit (decimal n) ≡ some n
unfolding parse_uint decimal parse_digits
parse_uint-decimal limit n h k =
    let (c, cs, e, lo, hi) = decimal_loop-StartsByDigit 19 n in
    let read = digits_from-decimal_loop limit 19 n h k in
    let not_plus : (c == 43) ≡ false = ground arith in rw (e, not_plus) (rw e at read)

-- The decimal digits of a number lack every byte that is no digit.
decimal_loop-Lacks : (sep f n : ℕ) → (sep < 48) ⊎ (57 < sep) → Lacks sep (decimal_loop f n)
unfolding decimal_loop
decimal_loop-Lacks sep zero n h = tt
decimal_loop-Lacks sep (suc f) n h = elim (Bool-cases (ltb n 10)) [
  | inl e ↦ rw e (ground arith)
  | inr e ↦ rw e (
      All-append (λ b. b ≢ sep) (decimal_loop f (n / 10)) ((48 + n % 10) ∷ [])
        (decimal_loop-Lacks sep f (n / 10) h) (ground arith))
]

pub decimal-Lacks : (sep n : ℕ) → (sep < 48) ⊎ (57 < sep) → Lacks sep (decimal n)
unfolding decimal
decimal-Lacks sep n h = decimal_loop-Lacks sep 20 n h

decimal_loop-ascii : (f n : ℕ) → All (λ b. b < 128) (decimal_loop f n)
unfolding decimal_loop
decimal_loop-ascii zero n = tt
decimal_loop-ascii (suc f) n = elim (Bool-cases (ltb n 10)) [
  | inl e ↦ rw e (ground arith)
  | inr e ↦ rw e (
      All-append (λ b. b < 128) (decimal_loop f (n / 10)) ((48 + n % 10) ∷ [])
        (decimal_loop-ascii f (n / 10)) (omega arith))
]

pub decimal-IsUtf8 : (n : ℕ) → IsUtf8 (decimal n)
unfolding decimal
decimal-IsUtf8 n = ascii-IsUtf8 (decimal_loop 20 n) (decimal_loop-ascii 20 n)

-- The digits of a number.
abbrev pub IsDigit : ℕ → Type 0
IsDigit b = (48 ≤ b) × (b ≤ 57)

decimal_loop-IsDigit : (f n : ℕ) → All IsDigit (decimal_loop f n)
unfolding decimal_loop
decimal_loop-IsDigit zero n = tt
decimal_loop-IsDigit (suc f) n = elim (Bool-cases (ltb n 10)) [
  | inl e ↦ rw e (ground arith)
  | inr e ↦ rw e (
      All-append IsDigit (decimal_loop f (n / 10)) ((48 + n % 10) ∷ [])
        (decimal_loop-IsDigit f (n / 10)) (omega arith))
]

pub decimal-IsDigit : (n : ℕ) → All IsDigit (decimal n)
unfolding decimal
decimal-IsDigit n = decimal_loop-IsDigit 20 n
