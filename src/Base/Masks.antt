-- ===== src/Base/Masks.antt =====
-- `|` on machine words whose digits do not overlap.
use Prim.Native.Nat.{
  ℕ, zero, suc, ◌+◌, ◌*◌, ◌/◌, ◌%◌, ◌^◌, ◌<◌, ◌≤◌, bit_or, bit_or-bitwise, digits, max,
}
use mathlib.Core.Path.{◌≡◌, refl, ap}
use native.Mathlib.Nat.{pow-suc}
use native.Mathlib.Omega.{arith}

abbrev or_within : ℕ → ℕ → ℕ → ℕ
or_within n a b = digits (λ y. y) max n a b

-- More turns than the first number has digits change nothing.
or_within-more : (a b n m : ℕ) → a ≤ n → a ≤ m → or_within n a b ≡ or_within m a b
or_within-more zero b zero zero p q = refl
or_within-more zero b zero (suc m) p q = refl
or_within-more zero b (suc n) zero p q = refl
or_within-more zero b (suc n) (suc m) p q = refl
or_within-more (suc a) b zero m p q = absurd (omega arith)
or_within-more (suc a) b (suc n) zero p q = absurd (omega arith)
or_within-more (suc a) b (suc n) (suc m) p q =
    let rest = or_within-more (suc a / 2) (b / 2) n m (omega arith) (omega arith) in
    omega (arith, rest)

or_zero_left : (b : ℕ) → bit_or 0 b ≡ b
or_zero_left b = bit_or-bitwise 0 b

-- The digits above the lowest one, of numbers that are not both cut there.
or_halves :
    (v x : ℕ) → v % 2 + x % 2 < 2 → bit_or v x ≡ bit_or (v / 2) (x / 2) * 2 + (v % 2 + x % 2)
or_halves zero x h = omega (arith, or_zero_left x, or_zero_left (x / 2))
or_halves (suc v) x h =
    let whole = bit_or-bitwise (suc v) x in
    let half = bit_or-bitwise (suc v / 2) (x / 2) in
    let rest = or_within-more (suc v / 2) (x / 2) v (suc v / 2) (omega arith) (omega arith) in
    let top : max (suc v % 2) (x % 2) ≡ suc v % 2 + x % 2 = omega arith in
    omega (arith, whole, half, rest, top)

-- A number below a shifted one is added to it.
pub bit_or-shifted : (k v x : ℕ) → v < 2 ^ k → bit_or v (x * 2 ^ k) ≡ v + x * 2 ^ k
bit_or-shifted zero v x h =
    let none_left : v ≡ 0 = omega arith in rw none_left (omega (arith, or_zero_left (x * 2 ^ 0)))
bit_or-shifted (suc k) v x h =
    let next : x * 2 ^ suc k ≡ x * (2 ^ k * 2) = ap (λ n. x * n) (pow-suc 2 k) in
    let half : x * 2 ^ suc k / 2 ≡ x * 2 ^ k = omega (arith, next) in
    let rest = bit_or-shifted k (v / 2) x (omega (arith, pow-suc 2 k)) in
    let step = or_halves v (x * 2 ^ suc k) (omega (arith, next)) in
    let inner : bit_or (v / 2) (x * 2 ^ suc k / 2) ≡ bit_or (v / 2) (x * 2 ^ k) =
      ap (λ n. bit_or (v / 2) n) half in
    omega (arith, step, inner, rest, next)
