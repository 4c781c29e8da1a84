-- ===== src/Base/Maps.antt =====
-- Rust's `HashMap` as an association list, over keys with a Boolean equality. The order of the
-- list stands for the unspecified order of iteration.
use mathlib.Core.Path.{◌≡◌, refl}
use mathlib.Core.Logic.{◌↔◌}
use mathlib.Core.Bool.{Bool, true, false}
use mathlib.Core.List.{List, [], ◌∷◌}
use mathlib.Core.Option.{Option, none, some}
use Prim.Native.Nat.{ℕ}
use Prim.Native.String.{String}
use native.Mathlib.Omega.{arith}
use text.Mathlib.Text.{◌==◌ as str_eq}
use text.Mathlib.TextEquality.{eq_iff}
use p2p_core.Base.Tests.{if◌then◌else◌, ◌==◌, ==_iff}

pub record Key (K : Type 0) : Type 0 where
  pub same : K → K → Bool
  pub same_iff : (a b : K) → (same a b ≡ true) ↔ (a ≡ b)

instance abbrev pub nat_key : Key ℕ
nat_key = record { same = ◌==◌; same_iff = ==_iff }

instance abbrev pub text_key : Key String
text_key = record { same = str_eq; same_iff = eq_iff }

module _ {K V : Type 0} ⦃k : Key K⦄ where
  -- `map.get(&key)`
  abbrev pub lookup : K → List (K × V) → Option V
  lookup a [] = none
  lookup a ((b, v) ∷ m) = if k.same b a then some v else lookup a m

  abbrev pub contains_key : K → List (K × V) → Bool
  contains_key a [] = false
  contains_key a ((b, v) ∷ m) = if k.same b a then true else contains_key a m

  -- `map.insert(key, value)`
  abbrev pub insert : K → V → List (K × V) → List (K × V)
  insert a v [] = (a, v) ∷ []
  insert a v ((b, w) ∷ m) = if k.same b a then (a, v) ∷ m else (b, w) ∷ insert a v m

  -- `map.remove(&key)`
  abbrev pub remove : K → List (K × V) → List (K × V)
  remove a [] = []
  remove a ((b, w) ∷ m) = if k.same b a then remove a m else (b, w) ∷ remove a m

  pub lookup-insert :
      (a b : K) (v : V) (m : List (K × V))
      → lookup b (insert a v m) ≡ (if k.same a b then some v else lookup b m)
  lookup-insert a b v [] = refl
  lookup-insert a b v ((c, w) ∷ m) =
      ground (arith, k.same_iff a b, k.same_iff c a, k.same_iff c b, lookup-insert a b v m)

  pub lookup-remove :
      (a b : K) (m : List (K × V))
      → lookup b (remove a m) ≡ (if k.same a b then none else lookup b m)
  lookup-remove a b [] = ground arith
  lookup-remove a b ((c, w) ∷ m) =
      ground (arith, k.same_iff a b, k.same_iff c a, k.same_iff c b, lookup-remove a b m)

  pub contains_key-insert :
      (a b : K) (v : V) (m : List (K × V))
      → contains_key b (insert a v m) ≡ (if k.same a b then true else contains_key b m)
  contains_key-insert a b v [] = refl
  contains_key-insert a b v ((c, w) ∷ m) =
      ground (arith, k.same_iff a b, k.same_iff c a, k.same_iff c b, contains_key-insert a b v m)

  pub contains_key-remove :
      (a b : K) (m : List (K × V))
      → contains_key b (remove a m) ≡ (if k.same a b then false else contains_key b m)
  contains_key-remove a b [] = ground arith
  contains_key-remove a b ((c, w) ∷ m) =
      ground (arith, k.same_iff a b, k.same_iff c a, k.same_iff c b, contains_key-remove a b m)
