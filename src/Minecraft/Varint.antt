-- ===== src/Minecraft/Varint.antt =====
-- The VarInts, read back.
use p2p_core.Base.{
  ℕ, Bool-cases, [], if◌then◌else◌, inl, inr, ltb, ok, suc, zero, ◌%◌, ◌++◌, ◌+◌, ◌/◌, ◌<◌, ◌^◌,
  ◌∷◌, ◌≡◌, ap, append_assoc, arith, bit_or, false, leb, ltb→lt, lt→ltb, refl, true, ◌*◌, ◌==◌,
  length, ◌∙◌, ◌≤◌,
}
use native.Mathlib.Nat.{pow-suc, mul-le-mul_right}
use p2p_core.Base.Masks.{bit_or-shifted}
use p2p_core.Base.Words.{Bytes}
use p2p_core.Minecraft.{pos, write_loop, write_varint, read_loop, read_varint}

-- Seven digits at a time, the lowest first, each group but the last with its top bit set.
abbrev pub groups : ℕ → ℕ → Bytes
groups zero v = []
groups (suc f) v = if ltb v 128 then v ∷ [] else (v % 128 + 128) ∷ groups f (v / 128)

length-groups : (f v : ℕ) → length (groups f v) ≤ f
length-groups zero v = omega arith
length-groups (suc f) v = elim (Bool-cases (ltb v 128)) [
  | inl small ↦ rw small (omega arith)
  | inr large ↦ rw large (omega (arith, length-groups f (v / 128)))
]

write_loop-last :
    (f v : ℕ) (buffer : Bytes)
    → v < 128
    → write_loop (suc f) v buffer ≡ ok (buffer ++ groups (suc f) v)
unfolding write_loop
write_loop-last f v buffer h =
    let stop : (v / 128 == 0) ≡ true = ground arith in
    let small : ltb v 128 ≡ true = ground arith in
    let whole : v % 2 ^ 8 ≡ v = omega arith in rw (stop, small, whole) refl

write_loop-groups :
    (f v : ℕ) (buffer : Bytes)
    → v < 128 ^ suc f
    → write_loop (suc f) v buffer ≡ ok (buffer ++ groups (suc f) v)
unfolding write_loop
write_loop-groups zero v buffer h = write_loop-last zero v buffer (omega arith)
write_loop-groups (suc f) v buffer h = elim (Bool-cases (ltb v 128)) [
  | inl small ↦ write_loop-last (suc f) v buffer (ltb→lt v 128 small)
  | inr large ↦
      let go : (v / 128 == 0) ≡ false = ground arith in
      let top : bit_or (v % 128) 0x80 ≡ v % 128 + 128 =
        bit_or-shifted 7 (v % 128) 1 (omega arith) in
      let below : v / 128 < 128 ^ suc f = omega (arith, pow-suc 128 (suc f)) in
      let rest = write_loop-groups f (v / 128) (buffer ++ ((v % 128 + 128) ∷ [])) below in
      rw (go, large, top, rest)
        (ap ok (append_assoc buffer ((v % 128 + 128) ∷ []) (groups (suc f) (v / 128))))
]

seven_more : (p : ℕ) → 2 ^ (p + 7) ≡ 128 * 2 ^ p
seven_more p =
    let e : p + 7 ≡ suc (suc (suc (suc (suc (suc (suc p)))))) = omega arith in
    rw e (
      omega (
        arith,
        pow-suc 2 p,
        pow-suc 2 (suc p),
        pow-suc 2 (suc (suc p)),
        pow-suc 2 (suc (suc (suc p))),
        pow-suc 2 (suc (suc (suc (suc p)))),
        pow-suc 2 (suc (suc (suc (suc (suc p))))),
        pow-suc 2 (suc (suc (suc (suc (suc (suc p)))))),
      ))

read_loop-last :
    (f value p v : ℕ) (rest : Bytes)
    → v < 128
    → p < 35
    → value < 2 ^ p
    → value + v * 2 ^ p < 2 ^ 31
    → read_loop value p (groups (suc f) v ++ rest) ≡ ok (pos (value + v * 2 ^ p), rest)
unfolding read_loop
read_loop-last f value p v rest lt hp hv ht =
    let small : ltb v 128 ≡ true = lt→ltb v 128 lt in
    let early : leb 35 p ≡ false = ground arith in
    let stop : (v / 128 % 2 == 0) ≡ true = ground arith in
    let low : v % 128 ≡ v = omega arith in
    let fits : v * 2 ^ p % 2 ^ 32 ≡ v * 2 ^ p = omega arith in
    let joined : bit_or value (v * 2 ^ p) ≡ value + v * 2 ^ p = bit_or-shifted p value v hv in
    let positive : ltb (value + v * 2 ^ p) (2 ^ 31) ≡ true = lt→ltb _ _ ht in
    rw (small, early, stop, low, fits, joined, positive) refl

-- The lowest group and those above it.
split_group : (v p : ℕ) → v * 2 ^ p ≡ v % 128 * 2 ^ p + v / 128 * 2 ^ (p + 7)
split_group v p =
    let parts : v ≡ v % 128 + v / 128 * 128 = omega arith in
    let products : v * 2 ^ p ≡ (v % 128 + v / 128 * 128) * 2 ^ p = ap (λ n. n * 2 ^ p) parts in
    let shift : v / 128 * 2 ^ (p + 7) ≡ v / 128 * (128 * 2 ^ p) =
      ap (λ n. v / 128 * n) (seven_more p) in
    omega (arith, products, shift)

read_loop-groups :
    (f value p v : ℕ) (rest : Bytes)
    → v < 128 ^ suc f
    → p + 7 * f < 35
    → value < 2 ^ p
    → value + v * 2 ^ p < 2 ^ 31
    → read_loop value p (groups (suc f) v ++ rest) ≡ ok (pos (value + v * 2 ^ p), rest)
unfolding read_loop
read_loop-groups zero value p v rest h hp hv ht =
    read_loop-last zero value p v rest (omega arith) (omega arith) hv ht
read_loop-groups (suc f) value p v rest h hp hv ht = elim (Bool-cases (ltb v 128)) [
  | inl small ↦ read_loop-last (suc f) value p v rest (ltb→lt v 128 small) (omega arith) hv ht
  | inr large ↦
      let early : leb 35 p ≡ false = ground arith in
      let go : ((v % 128 + 128) / 128 % 2 == 0) ≡ false = ground arith in
      let low : (v % 128 + 128) % 128 ≡ v % 128 = omega arith in
      let split = split_group v p in
      let fits : v % 128 * 2 ^ p % 2 ^ 32 ≡ v % 128 * 2 ^ p = omega (arith, split) in
      let joined : bit_or value (v % 128 * 2 ^ p) ≡ value + v % 128 * 2 ^ p =
        bit_or-shifted p value (v % 128) hv in
      let sum : value + v % 128 * 2 ^ p + v / 128 * 2 ^ (p + 7) ≡ value + v * 2 ^ p =
        omega (arith, split) in
      let high : v % 128 * 2 ^ p ≤ 127 * 2 ^ p = mul-le-mul_right (2 ^ p) (omega arith) in
      let room : value + v % 128 * 2 ^ p < 2 ^ (p + 7) = omega (arith, seven_more p, high) in
      let later =
        read_loop-groups f (value + v % 128 * 2 ^ p) (p + 7) (v / 128) rest
          (omega (arith, pow-suc 128 (suc f))) (omega arith) room (omega (arith, sum)) in
      rw (large, early, go, low, fits, joined, later) (ap (λ n. ok (pos n, rest)) sum)
]

-- Every `i32` that is not negative is written in at most five bytes, behind what the buffer has, and
-- read back from them with the bytes behind them left in the stream.
pub read_varint-write_varint :
    (value : ℕ) (buffer rest : Bytes)
    → value < 2 ^ 31
    → (bytes : Bytes) × (write_varint buffer (pos value) ≡ ok (buffer ++ bytes))
      × (length bytes ≤ 5)
      × (read_varint (bytes ++ rest) ≡ ok (pos value, rest))
unfolding write_varint read_varint
read_varint-write_varint value buffer rest h =
    let one : 0 + value * 2 ^ 0 ≡ value = omega arith in
    let read =
      read_loop-groups 4 0 0 value rest (omega arith) (omega arith) (omega arith) (omega arith) in
    (
      groups 5 value,
      write_loop-groups 4 value buffer (omega arith),
      length-groups 5 value,
      read ∙ ap (λ n. ok (pos n, rest)) one,
    )
