-- ===== src/Signaling/Answer.antt =====
-- signaling.rs on any packet: the answer of `parse_stun_binding_response`, without indices.
use p2p_core.Base.{
  ℕ, Bool-cases, Outcome, [], arith, drop, err, if◌then◌else◌, inl, inr, length, length-drop, ltb,
  not, refl, take, ◌*◌, ◌+◌, ◌==◌, ◌∷◌, ◌≡◌, ap, ok, out_of_fuel, panic, some, sym, true, ◌∙◌, ◌≢◌,
  ◌≤◌, ==_iff, Bool, Option, false,
}
use p2p_core.Base.Words.{Bytes}
use p2p_core.Signaling.{
  StunError, short_response, unexpected_type, transaction_mismatch, parse_stun_binding_response,
  same_bytes,
}
use p2p_core.Signaling.Attributes.{find_mapped}
use p2p_core.Signaling.Parse.{outcome, attribute_loop-eq, slice-window, u16_at-window}
use p2p_core.Net.{SocketAddr}

abbrev pub message_type : Bytes → ℕ
message_type (a ∷ b ∷ _) = a * 256 + b
message_type _ = 0

abbrev pub transaction : Bytes → Bytes
transaction xs = take 12 (drop 8 xs)

-- The answer to a packet, without indices.
unfoldable pub answer : Bytes → Bytes → Outcome StunError SocketAddr
answer request payload =
    if ltb (length payload) 20
    then err short_response
    else if not (message_type payload == 0x0101)
    then err unexpected_type
    else if not (same_bytes (transaction payload) (transaction request))
    then err transaction_mismatch
    else outcome (find_mapped (length payload) (drop 20 payload))

-- A packet that is long enough, from its first two bytes on.
parse-eq_long :
    (request payload r : Bytes) (a b : ℕ)
    → length request ≡ 20
    → ltb (length payload) 20 ≡ false
    → payload ≡ a ∷ b ∷ r
    → parse_stun_binding_response request payload ≡ answer request payload
unfolding parse_stun_binding_response answer
parse-eq_long request payload r a b h full e =
    let kind : message_type payload ≡ a * 256 + b = ap message_type e in
    rw (
      full,
      kind,
      u16_at-window payload 0 a b r e,
      slice-window payload 8 12 _ refl (ground arith),
      slice-window request 8 12 _ refl (omega arith),
      attribute_loop-eq payload (length payload) 20 _ refl refl
          (ground (arith, length-drop 20 payload)),
    )

pub parse-eq :
    (request payload : Bytes)
    → length request ≡ 20
    → parse_stun_binding_response request payload ≡ answer request payload
parse-eq request [] h = unfold parse_stun_binding_response answer in refl
parse-eq request (a ∷ []) h = unfold parse_stun_binding_response answer in refl
parse-eq request (a ∷ b ∷ r) h = elim (Bool-cases (ltb (length (a ∷ b ∷ r)) 20)) [
  | inl small ↦ unfold parse_stun_binding_response answer in rw small
  | inr full ↦ parse-eq_long request (a ∷ b ∷ r) r a b h full refl
]

answer_ends :
    (request payload : Bytes)
    → (answer request payload ≢ panic) × (answer request payload ≢ out_of_fuel)
unfolding answer
answer_ends request payload = ground arith

-- On every packet, well formed or not, of any length, the parser returns an address or an error:
-- no index or slice is out of range, and the attribute loop ends.
pub parse_total :
    (request payload : Bytes)
    → length request ≡ 20
    → (parse_stun_binding_response request payload ≢ panic)
      × (parse_stun_binding_response request payload ≢ out_of_fuel)
parse_total request payload h = rw (parse-eq request payload h) (answer_ends request payload)

same_bytes-eq : (xs ys : Bytes) → same_bytes xs ys ≡ true → xs ≡ ys
same_bytes-eq [] [] h = refl
same_bytes-eq [] (y ∷ ys) h = cc
same_bytes-eq (x ∷ xs) [] h = cc
same_bytes-eq (x ∷ xs) (y ∷ ys) h = ground (arith, same_bytes-eq xs ys)

pub same_bytes_refl : (xs : Bytes) → same_bytes xs xs ≡ true
same_bytes_refl [] = refl
same_bytes_refl (x ∷ xs) = ground (arith, same_bytes_refl xs)

accepted :
    (short kind same : Bool) (o : Option SocketAddr) (a : SocketAddr)
    → (if short
        then err short_response
        else if not kind
        then err unexpected_type
        else if not same
        then err transaction_mismatch
        else outcome o)
      ≡ ok a
    → (short ≡ false) × (kind ≡ true) × (same ≡ true) × (o ≡ some a)
accepted short kind same o a h = ground arith

answer_accepts :
    (request payload : Bytes) (a : SocketAddr)
    → answer request payload ≡ ok a
    → (20 ≤ length payload)
      × (message_type payload ≡ 0x0101)
      × (transaction payload ≡ transaction request)
      × (find_mapped (length payload) (drop 20 payload) ≡ some a)
unfolding answer
answer_accepts request payload a h =
    let (full, kind, same, found) =
      accepted (ltb (length payload) 20) (message_type payload == 0x0101)
        (same_bytes (transaction payload) (transaction request)) _ a h in
    (
      ground arith,
      (==_iff (message_type payload) 0x0101).0 kind,
      same_bytes-eq (transaction payload) (transaction request) same,
      found,
    )

-- A packet that is accepted is a binding response of 20 bytes at least, carries the transaction id
-- of the request, and its address is the first that its attributes hold.
pub parse_accepts :
    (request payload : Bytes) (a : SocketAddr)
    → length request ≡ 20
    → parse_stun_binding_response request payload ≡ ok a
    → (20 ≤ length payload)
      × (message_type payload ≡ 0x0101)
      × (transaction payload ≡ transaction request)
      × (find_mapped (length payload) (drop 20 payload) ≡ some a)
parse_accepts request payload a h e =
    answer_accepts request payload a (sym (parse-eq request payload h) ∙ e)
