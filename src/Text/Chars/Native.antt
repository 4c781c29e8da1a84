-- ===== src/Text/Chars/Native.antt =====
-- The native text of some characters; a number that is no character becomes U+FFFD, as none does here.
use Prim.Native.Char
use Prim.Native.Char.{Char, char}
use native.Mathlib.Decide.{dec_lt}
use p2p_core.Base.{ℕ, String, [], arith, refl, ◌<◌, ◌∷◌, ◌≡◌}
use p2p_core.Text.Chars.{Chars}

low-IsScalar : (n : ℕ) → n < 0xd800 → Prim.Native.Char.IsScalar n
low-IsScalar n h = ground (arith, h)

high-IsScalar : (n : ℕ) → 0xdfff < n → n < 0x110000 → Prim.Native.Char.IsScalar n
high-IsScalar n h k = ground (arith, h, k)

char_of : ℕ → Char
unfolding low-IsScalar high-IsScalar
char_of n = elim (dec_lt n 0xd800) [
  | yes h ↦ char n (low-IsScalar n h)
  | no _ ↦ elim (dec_lt 0xdfff n) [
    | yes h ↦ elim (dec_lt n 0x110000) [
      | yes k ↦ char n (high-IsScalar n h k)
      | no _ ↦ char 0xfffd tt
    ]
    | no _ ↦ char 0xfffd tt
  ]
]

unfoldable pub to_string : Chars → String
unfolding char_of dec_lt
to_string [] = String.[]
to_string (c ∷ cs) = String.◌∷◌ (char_of c) (to_string cs)

hello : to_string (72 ∷ 105 ∷ []) ≡ "Hi"
unfolding to_string
hello = refl
