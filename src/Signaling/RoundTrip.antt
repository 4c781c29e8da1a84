-- ===== src/Signaling/RoundTrip.antt =====
-- signaling.rs on the responses that a STUN server makes of a list of attributes.
use p2p_core.Signaling.Answer.{parse-eq, answer, same_bytes_refl}
use p2p_core.Signaling.Attributes.{find_mapped, padded, attr_addr}
use p2p_core.Base.{
  ℕ, [], arith, drop, length, ltb, refl, take, ◌*◌, ◌+◌, ◌∷◌, ◌≡◌, List, ap, append_assoc,
  length-append, replicate, some, suc, sym, zero, ◌++◌, ◌-◌, ◌∙◌, ◌≤◌, All, drop-append, false,
  le→ltb, none, take-append, ◌%◌, ◌/◌, ◌<◌, append-nil,
}
use p2p_core.Base.Words.{Bytes, to_be}
use p2p_core.Signaling.{parse_stun_binding_response, stun_magic, build_stun_binding_request}
use p2p_core.Signaling.Attributes.{
  find_mapped, Attribute, encode_attributes, padded, IsAttribute, attr_addr, encode_attribute,
  first_addr,
}
use p2p_core.Signaling.Parse.{outcome}

-- What a server makes of a transaction id and attributes.
abbrev pub encode_response : Bytes → List Attribute → Bytes
encode_response tx attributes =
    let body = encode_attributes attributes in
    1 ∷ 1 ∷ to_be 2 (length body) ++ (to_be 4 stun_magic ++ (tx ++ body))

length-replicate : (n x : ℕ) → length (replicate n x) ≡ n
length-replicate zero x = refl
length-replicate (suc n) x = ap suc (length-replicate n x)

drop-append_of : (n : ℕ) (xs ys : Bytes) → n ≡ length xs → drop n (xs ++ ys) ≡ ys
drop-append_of n xs ys e = ap (λ k. drop k (xs ++ ys)) e ∙ drop-append xs ys

drop-padded :
    (value rest : Bytes)
    → drop
        (padded (length value))
        (value ++ (replicate (padded (length value) - length value) 0 ++ rest))
      ≡ rest
drop-padded value rest =
    let pad = replicate (padded (length value) - length value) 0 in
    ap (drop (padded (length value))) (sym (append_assoc value pad rest))
    ∙ drop-append_of _ (value ++ pad) rest (
        omega (
          arith,
          length-append value pad,
          length-replicate (padded (length value) - length value) 0,
        ))

encode_attribute-append :
    (a : Attribute) (rest : Bytes)
    → encode_attribute a ++ rest
      ≡ to_be 2 a.kind
        ++ (to_be 2 (length a.value)
            ++ (a.value ++ (replicate (padded (length a.value) - length a.value) 0 ++ rest)))
unfolding encode_attribute
encode_attribute-append a rest = simp append_assoc

-- One attribute at the front.
find_mapped-attribute :
    (f : ℕ) (a : Attribute) (rest : Bytes)
    → IsAttribute a
    → find_mapped (suc f) (encode_attribute a ++ rest)
      ≡ elim (attr_addr a.kind a.value) [ none ↦ find_mapped f rest | some x ↦ some x ]
unfolding find_mapped
find_mapped-attribute f a rest (hk, hv) =
    let kind : a.kind / 256 % 256 * 256 + a.kind % 256 ≡ a.kind = omega arith in
    let size : length a.value / 256 % 256 * 256 + length a.value % 256 ≡ length a.value =
      omega arith in
    let pad = replicate (padded (length a.value) - length a.value) 0 in
    let whole : ltb (length (a.value ++ (pad ++ rest))) (length a.value) ≡ false =
      le→ltb _ _ (omega (arith, length-append a.value (pad ++ rest))) in
    rw (encode_attribute-append a rest, kind, size, whole, take-append a.value (pad ++ rest))
      (ap (λ t. elim (attr_addr a.kind a.value) [ none ↦ find_mapped f t | some x ↦ some x ])
        (ap (λ n. drop (padded n) (a.value ++ (pad ++ rest))) size ∙ drop-padded a.value rest))

length-encode_attribute : (a : Attribute) → 4 ≤ length (encode_attribute a)
unfolding encode_attribute
length-encode_attribute a = omega arith

find_mapped-encode :
    (as' : List Attribute) (f : ℕ)
    → All IsAttribute as'
    → length (encode_attributes as') < f
    → find_mapped f (encode_attributes as') ≡ first_addr as'
unfolding encode_attributes first_addr
find_mapped-encode as' zero h hf = absurd (omega arith)
find_mapped-encode [] (suc f) h hf = unfold find_mapped in refl
find_mapped-encode (a ∷ as') (suc f) (ha, h) hf =
    find_mapped-attribute f a (encode_attributes as') ha
    ∙ ap (λ t. elim (attr_addr a.kind a.value) [ none ↦ t | some x ↦ some x ])
        (find_mapped-encode as' f h (
          omega (
            arith,
            length-append (encode_attribute a) (encode_attributes as'),
            length-encode_attribute a,
          )))

take-append_of : (n : ℕ) (xs ys : Bytes) → n ≡ length xs → take n (xs ++ ys) ≡ xs
take-append_of n xs ys e = ap (λ k. take k (xs ++ ys)) e ∙ take-append xs ys

take-all_of : (n : ℕ) (xs : Bytes) → n ≡ length xs → take n xs ≡ xs
take-all_of n xs e = ap (take n) (sym (append-nil xs)) ∙ take-append_of n xs [] e

pub build-twelve :
    (tx : Bytes)
    → length tx ≡ 12
    → build_stun_binding_request tx ≡ 0 ∷ 1 ∷ 0 ∷ 0 ∷ 0x21 ∷ 0x12 ∷ 0xa4 ∷ 0x42 ∷ tx
unfolding build_stun_binding_request
build-twelve tx h = rw (take-all_of 12 tx (sym h))

answer-encode_response :
    (tx : Bytes) (attributes : List Attribute)
    → length tx ≡ 12
    → All IsAttribute attributes
    → answer (0 ∷ 1 ∷ 0 ∷ 0 ∷ 0x21 ∷ 0x12 ∷ 0xa4 ∷ 0x42 ∷ tx) (encode_response tx attributes)
      ≡ outcome (first_addr attributes)
unfolding answer
answer-encode_response tx attributes h hs =
    let body = encode_attributes attributes in
    let size : length (tx ++ body) ≡ 12 + length body = omega (arith, length-append tx body) in
    let full : ltb (length (encode_response tx attributes)) 20 ≡ false = le→ltb _ _ (omega arith) in
    rw (
      full,
      take-append_of 12 tx body (sym h),
      take-all_of 12 tx (sym h),
      same_bytes_refl tx,
      drop-append_of 12 tx body (sym h),
      find_mapped-encode attributes (length (encode_response tx attributes)) hs (omega arith),
    )

-- The parser reads back what a server says: on the response to a request, made of any list of
-- attributes that fit their length fields, it returns the address of the first attribute that
-- carries one, and the error `no_mapped_address` if none does.
pub parse-encode_response :
    (tx : Bytes) (attributes : List Attribute)
    → length tx ≡ 12
    → All IsAttribute attributes
    → parse_stun_binding_response (build_stun_binding_request tx) (encode_response tx attributes)
      ≡ outcome (first_addr attributes)
parse-encode_response tx attributes h hs =
    let request : Bytes = 0 ∷ 1 ∷ 0 ∷ 0 ∷ 0x21 ∷ 0x12 ∷ 0xa4 ∷ 0x42 ∷ tx in
    rw (build-twelve tx h, parse-eq request (encode_response tx attributes) (omega arith))
      (answer-encode_response tx attributes h hs)
