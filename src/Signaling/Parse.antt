-- ===== src/Signaling/Parse.antt =====
-- The index-driven parser of signaling.rs computes the list-driven `find_mapped`.
use p2p_core.Base.{
  ℕ, Option, Outcome, [], ap, arith, drop, err, get_elem?, get_elem?-drop, index, none, ok, refl,
  some, sym, ◌*◌, ◌+◌, ◌∙◌, ◌∷◌, ◌≡◌, drop-drop, false, leb, length, length-drop, suc, take, true,
  zero, ◌%◌, ◌-◌, ◌<◌, ◌≤◌, Bool-cases, inl, inr, ltb,
}
use p2p_core.Base.Words.{Bytes}
use p2p_core.Signaling.{
  StunError, no_mapped_address, u16_at, parse_xor_mapped_address, parse_mapped_address,
  match_attribute, attribute_loop, next_multiple_of_4, slice,
}
use p2p_core.Signaling.Attributes.{xor_addr, plain_addr, attr_addr, find_mapped, padded}
use p2p_core.Net.{SocketAddr}

parse_xor-eq : (v : Bytes) → parse_xor_mapped_address v ≡ ok (xor_addr v)
unfolding parse_xor_mapped_address
parse_xor-eq [] = refl
parse_xor-eq (_ ∷ []) = refl
parse_xor-eq (_ ∷ _ ∷ []) = refl
parse_xor-eq (_ ∷ _ ∷ _ ∷ []) = refl
parse_xor-eq (_ ∷ _ ∷ _ ∷ _ ∷ []) = refl
parse_xor-eq (_ ∷ _ ∷ _ ∷ _ ∷ _ ∷ []) = refl
parse_xor-eq (_ ∷ _ ∷ _ ∷ _ ∷ _ ∷ _ ∷ []) = refl
parse_xor-eq (_ ∷ _ ∷ _ ∷ _ ∷ _ ∷ _ ∷ _ ∷ []) = refl
parse_xor-eq (_ ∷ f ∷ p ∷ q ∷ a ∷ b ∷ c ∷ d ∷ r) = ground arith

parse_mapped-eq : (v : Bytes) → parse_mapped_address v ≡ ok (plain_addr v)
unfolding parse_mapped_address
parse_mapped-eq [] = refl
parse_mapped-eq (_ ∷ []) = refl
parse_mapped-eq (_ ∷ _ ∷ []) = refl
parse_mapped-eq (_ ∷ _ ∷ _ ∷ []) = refl
parse_mapped-eq (_ ∷ _ ∷ _ ∷ _ ∷ []) = refl
parse_mapped-eq (_ ∷ _ ∷ _ ∷ _ ∷ _ ∷ []) = refl
parse_mapped-eq (_ ∷ _ ∷ _ ∷ _ ∷ _ ∷ _ ∷ []) = refl
parse_mapped-eq (_ ∷ _ ∷ _ ∷ _ ∷ _ ∷ _ ∷ _ ∷ []) = refl
parse_mapped-eq (_ ∷ f ∷ p ∷ q ∷ a ∷ b ∷ c ∷ d ∷ r) = ground arith

pub match_attribute-eq : (t : ℕ) (v : Bytes) → match_attribute t v ≡ ok (attr_addr t v)
unfolding match_attribute attr_addr
match_attribute-eq t v = ground (arith, parse_xor-eq v, parse_mapped-eq v)

abbrev pub outcome : Option SocketAddr → Outcome StunError SocketAddr
outcome none = err no_mapped_address
outcome (some a) = ok a

module _ (payload : Bytes) where
  index_window :
      (off i x : ℕ) (xs : Bytes)
      → drop off payload ≡ xs
      → get_elem? xs i ≡ some x
      → index {E = StunError} payload (off + i) ≡ ok x
  index_window off i x xs e g =
      let h : get_elem? payload (off + i) ≡ some x =
        sym (get_elem?-drop off i payload) ∙ ap (λ l. get_elem? l i) e ∙ g in
      rw (h, index)

  index_window_first :
      (off x : ℕ) (xs : Bytes)
      → drop off payload ≡ x ∷ xs
      → index {E = StunError} payload off ≡ ok x
  index_window_first off x xs e =
      let z : off + 0 ≡ off = omega arith in
      ap (index payload) (sym z) ∙ index_window off 0 x (x ∷ xs) e refl

  pub u16_at-window :
      (off a b : ℕ) (r : Bytes)
      → drop off payload ≡ a ∷ b ∷ r
      → u16_at payload off ≡ ok (a * 256 + b)
  u16_at-window off a b r e =
      rw (index_window_first off a (b ∷ r) e, index_window off 1 b (a ∷ b ∷ r) e refl)
        (ap ok (omega arith))

  pub length-window :
      (off : ℕ) (xs : Bytes) → drop off payload ≡ xs → length payload - off ≡ length xs
  length-window off xs e = sym (length-drop off payload) ∙ ap length e

  pub slice-window :
      (off n : ℕ) (xs : Bytes)
      → drop off payload ≡ xs
      → off + n ≤ length payload
      → slice payload off (off + n) ≡ ok (take n xs)
  slice-window off n xs e fits =
      let lo : leb off (off + n) ≡ true = ground arith in
      let hi : leb (off + n) (length payload) ≡ true = ground arith in
      let d : off + n - off ≡ n = omega arith in rw (lo, hi, d, e)

  drop-window :
      (off k : ℕ) (xs ys : Bytes)
      → drop off payload ≡ xs
      → drop k xs ≡ ys
      → drop (off + k) payload ≡ ys
  drop-window off k xs ys e d = sym (drop-drop off k payload) ∙ ap (drop k) e ∙ d

  -- Where fewer than four bytes are left the loop ends.
  loop_short :
      (f off : ℕ) (xs : Bytes)
      → drop off payload ≡ xs
      → length xs < 4
      → attribute_loop (suc f) payload off ≡ err no_mapped_address
  unfolding attribute_loop
  loop_short f off xs e h =
      let stop : leb (off + 4) (length payload) ≡ false = ground (arith, length-window off xs e) in
      rw stop

  -- The end of a round on an attribute that is there in full.
  attribute_next :
      (f off len : ℕ) (rest : Bytes) (o : Option SocketAddr)
      → ((off' : ℕ) (ys : Bytes)
          → drop off' payload ≡ ys
          → off' % 4 ≡ 0
          → length ys < f
          → attribute_loop f payload off' ≡ outcome (find_mapped f ys))
      → drop (off + 4) payload ≡ rest
      → off % 4 ≡ 0
      → length rest < f
      → ◌≡◌ {A = Outcome StunError SocketAddr}
          (elim o [
            | none ↦ attribute_loop f payload (next_multiple_of_4 (off + 4 + len))
            | some addr ↦ ok addr
          ])
          (outcome (elim o [ none ↦ find_mapped f (drop (padded len) rest) | some a ↦ some a ]))
  attribute_next f off len rest (some a) ih sub al h = refl
  attribute_next f off len rest none ih sub al h =
      let skip : next_multiple_of_4 (off + 4 + len) ≡ off + 4 + padded len = omega arith in
      rw skip (
        ih (off + 4 + padded len) (drop (padded len) rest)
          (drop-window (off + 4) (padded len) rest _ sub refl) (omega arith)
          (omega (arith, length-drop (padded len) rest)))

  pub attribute_loop-eq :
      (f off : ℕ) (xs : Bytes)
      → drop off payload ≡ xs
      → off % 4 ≡ 0
      → length xs < f
      → attribute_loop f payload off ≡ outcome (find_mapped f xs)
  unfolding attribute_loop find_mapped
  attribute_loop-eq zero off xs e al h = absurd (omega arith)
  attribute_loop-eq (suc f) off [] e al h = loop_short f off [] e (omega arith)
  attribute_loop-eq (suc f) off (a ∷ []) e al h = loop_short f off (a ∷ []) e (omega arith)
  attribute_loop-eq (suc f) off (a ∷ b ∷ []) e al h = loop_short f off (a ∷ b ∷ []) e (omega arith)
  attribute_loop-eq (suc f) off (a ∷ b ∷ c ∷ []) e al h =
      loop_short f off (a ∷ b ∷ c ∷ []) e (omega arith)
  attribute_loop-eq (suc f) off (t1 ∷ t0 ∷ l1 ∷ l0 ∷ rest) e al h =
      let xs : Bytes = t1 ∷ t0 ∷ l1 ∷ l0 ∷ rest in
      let size : length payload - off ≡ length xs = length-window off xs e in
      let go : leb (off + 4) (length payload) ≡ true = ground arith in
      rw
        (
          go,
          u16_at-window off t1 t0 (l1 ∷ l0 ∷ rest) e,
          u16_at-window (off + 2) l1 l0 rest (drop-window off 2 xs _ e refl),
        )
        (elim (Bool-cases (ltb (length rest) (l1 * 256 + l0))) [
          | inl cut ↦
              let cut' : ltb (length payload) (off + 4 + (l1 * 256 + l0)) ≡ true = ground arith in
              rw (cut, cut')
          | inr whole ↦
              let whole' : ltb (length payload) (off + 4 + (l1 * 256 + l0)) ≡ false =
                ground arith in
              let sub : drop (off + 4) payload ≡ rest = drop-window off 4 xs rest e refl in
              rw
                (
                  whole,
                  whole',
                  slice-window (off + 4) (l1 * 256 + l0) rest sub (ground arith),
                  match_attribute-eq (t1 * 256 + t0) (take (l1 * 256 + l0) rest),
                )
                (attribute_next f off (l1 * 256 + l0) rest _ (attribute_loop-eq f) sub al
                  (omega arith))
        ])
