-- ===== src/Base/Words.antt =====
-- Bytes, the casts to fixed widths, and numbers as byte strings in both orders.
use Prim.Native.Nat.{ℕ, zero, suc, ◌+◌, ◌*◌, ◌/◌, ◌%◌, ◌^◌, ◌<◌}
use mathlib.Core.Path.{◌≡◌, refl, ap, ◌∙◌}
use mathlib.Core.List.{List, [], ◌∷◌, ◌++◌}
use native.Mathlib.Nat.{pow-suc}
use native.Mathlib.Omega.{arith}
use p2p_core.Base.Lists.{length, length-append, All, All-append}

abbrev pub Bytes : Type 0
Bytes = List ℕ

abbrev pub IsByte : ℕ → Type 0
IsByte b = b < 256

abbrev pub u8 : ℕ → ℕ
u8 n = n % 2 ^ 8

abbrev pub u16 : ℕ → ℕ
u16 n = n % 2 ^ 16

abbrev pub u32 : ℕ → ℕ
u32 n = n % 2 ^ 32

abbrev pub u64 : ℕ → ℕ
u64 n = n % 2 ^ 64

-- `uN::from_be_bytes` over the bytes read so far.
abbrev pub from_be_on : ℕ → Bytes → ℕ
from_be_on acc [] = acc
from_be_on acc (b ∷ bs) = from_be_on (acc * 256 + b) bs

abbrev pub from_be : Bytes → ℕ
from_be bs = from_be_on 0 bs

-- `n.to_be_bytes()` of a number of `k` bytes.
abbrev pub to_be : ℕ → ℕ → Bytes
to_be zero n = []
to_be (suc k) n = to_be k (n / 256) ++ (n % 256 ∷ [])

abbrev pub from_le : Bytes → ℕ
from_le [] = 0
from_le (b ∷ bs) = b + 256 * from_le bs

abbrev pub to_le : ℕ → ℕ → Bytes
to_le zero n = []
to_le (suc k) n = n % 256 ∷ to_le k (n / 256)

pub from_be_on-snoc :
    (acc b : ℕ) (bs : Bytes) → from_be_on acc (bs ++ (b ∷ [])) ≡ from_be_on acc bs * 256 + b
from_be_on-snoc acc b [] = refl
from_be_on-snoc acc b (c ∷ bs) = from_be_on-snoc (acc * 256 + c) b bs

below_div : (k n : ℕ) → n < 256 ^ suc k → n / 256 < 256 ^ k
below_div k n h = omega (arith, pow-suc 256 k)

pub from_be-to_be : (k n : ℕ) → n < 256 ^ k → from_be (to_be k n) ≡ n
from_be-to_be zero n h = omega arith
from_be-to_be (suc k) n h =
    from_be_on-snoc 0 (n % 256) (to_be k (n / 256))
    ∙ omega (arith, from_be-to_be k (n / 256) (below_div k n h))

pub from_le-to_le : (k n : ℕ) → n < 256 ^ k → from_le (to_le k n) ≡ n
from_le-to_le zero n h = omega arith
from_le-to_le (suc k) n h = omega (arith, from_le-to_le k (n / 256) (below_div k n h))

pub length-to_be : (k n : ℕ) → length (to_be k n) ≡ k
length-to_be zero n = refl
length-to_be (suc k) n =
    length-append (to_be k (n / 256)) (n % 256 ∷ []) ∙ omega (arith, length-to_be k (n / 256))

pub length-to_le : (k n : ℕ) → length (to_le k n) ≡ k
length-to_le zero n = refl
length-to_le (suc k) n = ap suc (length-to_le k (n / 256))

pub to_be-IsByte : (k n : ℕ) → All IsByte (to_be k n)
to_be-IsByte zero n = tt
to_be-IsByte (suc k) n =
    All-append IsByte (to_be k (n / 256)) (n % 256 ∷ []) (to_be-IsByte k (n / 256)) (omega arith)

from_be_on-lt :
    (bs : Bytes) (acc m : ℕ) → All IsByte bs → acc < m → from_be_on acc bs < m * 256 ^ length bs
from_be_on-lt [] acc m h p = omega arith
from_be_on-lt (b ∷ bs) acc m h p = omega (
  arith,
  from_be_on-lt bs (acc * 256 + b) (m * 256) h.1 (omega arith),
  ap (λ (t : ℕ). m * t) (pow-suc 256 (length bs)),
)

-- A number read from bytes fits their width.
pub from_be-lt : (bs : Bytes) → All IsByte bs → from_be bs < 256 ^ length bs
from_be-lt bs h = omega (arith, from_be_on-lt bs 0 1 h (omega arith))
