-- ===== src/StunProbe/Agreement.antt =====
-- The whole parser of stun.rs: it ends without a panic on every reply, and agrees with the parser of
-- signaling.rs.
use p2p_core.Base.{
  ℕ, All, Bool-cases, Option, Outcome, [], ap, arith, drop, err, false, inl, inr, leb, length,
  length-drop, length-take, ltb, none, ok, refl, some, suc, take, true, zero, ◌%◌, ◌*◌, ◌+◌, ◌-◌,
  ◌<◌, ◌∷◌, ◌≡◌, ◌≤◌, if◌then◌else◌, min, not, out_of_fuel, panic, ◌==◌, ◌∙◌, ◌≢◌,
}
use p2p_core.Base.Words.{Bytes, IsByte}
use p2p_core.Signaling.{
  StunError, no_mapped_address, parse_stun_binding_response, same_bytes, short_response,
  transaction_mismatch, unexpected_type,
}
use p2p_core.Signaling.Attributes.{padded, find_mapped}
use p2p_core.Signaling.Parse.{outcome, slice-window, u16_at-window}
use p2p_core.Net.{SocketAddr}
use p2p_core.StunProbe.{probe_loop, parse_reply}
use p2p_core.StunProbe.Parse.{IsWindow-drop, attribute-eq, drop-IsByte, u16_in, take-IsByte}
use p2p_core.Signaling.Answer.{transaction, message_type, parse-eq, answer}

module _ (buf : Bytes) (stop : ℕ) (inside : stop ≤ length buf) where
  loop_short :
      (f off : ℕ) (xs : Bytes)
      → drop off (take stop buf) ≡ xs
      → length xs < 4
      → probe_loop (suc f) buf stop off ≡ err no_mapped_address
  unfolding probe_loop
  loop_short f off xs e h =
      let size : length (drop off (take stop buf)) ≡ length xs = ap length e in
      let done : leb (off + 4) stop ≡ false =
        ground (arith, length-drop off (take stop buf), length-take stop buf) in
      rw done

  -- The end of a round on an attribute that is there in full.
  probe_next :
      (f off len : ℕ) (rest : Bytes) (o : Option SocketAddr)
      → ((off' : ℕ) (ys : Bytes)
          → drop off' (take stop buf) ≡ ys
          → All IsByte ys
          → length ys < f
          → probe_loop f buf stop off' ≡ outcome (find_mapped f ys))
      → drop (off + 4) (take stop buf) ≡ rest
      → All IsByte rest
      → length rest < f
      → ◌≡◌ {A = Outcome StunError SocketAddr}
          (elim o [
            | none ↦ probe_loop f buf stop (off + 4 + len + (4 - len % 4) % 4)
            | some addr ↦ ok addr
          ])
          (outcome (elim o [ none ↦ find_mapped f (drop (padded len) rest) | some a ↦ some a ]))
  probe_next f off len rest (some a) ih sub hb h = refl
  probe_next f off len rest none ih sub hb h =
      let skip : off + 4 + len + (4 - len % 4) % 4 ≡ off + 4 + padded len = omega arith in
      rw skip (
        ih (off + 4 + padded len) (drop (padded len) rest)
          (IsWindow-drop buf stop (off + 4) (padded len) rest _ sub refl)
          (drop-IsByte (padded len) rest hb) (omega (arith, length-drop (padded len) rest)))

  pub probe_loop-eq :
      (f off : ℕ) (xs : Bytes)
      → drop off (take stop buf) ≡ xs
      → All IsByte xs
      → length xs < f
      → probe_loop f buf stop off ≡ outcome (find_mapped f xs)
  unfolding probe_loop find_mapped
  probe_loop-eq zero off xs e hb h = absurd (omega arith)
  probe_loop-eq (suc f) off [] e hb h = loop_short f off [] e (omega arith)
  probe_loop-eq (suc f) off (a ∷ []) e hb h = loop_short f off (a ∷ []) e (omega arith)
  probe_loop-eq (suc f) off (a ∷ b ∷ []) e hb h = loop_short f off (a ∷ b ∷ []) e (omega arith)
  probe_loop-eq (suc f) off (a ∷ b ∷ c ∷ []) e hb h =
      loop_short f off (a ∷ b ∷ c ∷ []) e (omega arith)
  probe_loop-eq (suc f) off (t1 ∷ t0 ∷ l1 ∷ l0 ∷ rest) e hb h =
      let xs : Bytes = t1 ∷ t0 ∷ l1 ∷ l0 ∷ rest in
      let size : length (drop off (take stop buf)) ≡ length xs = ap length e in
      let size' : stop - off ≡ length xs =
        omega (arith, length-drop off (take stop buf), length-take stop buf) in
      let go : leb (off + 4) stop ≡ true = ground arith in
      let sub : drop (off + 4) (take stop buf) ≡ rest =
        IsWindow-drop buf stop off 4 xs rest e refl in
      rw
        (
          go,
          u16_in buf stop off t1 t0 (l1 ∷ l0 ∷ rest) e,
          u16_in buf stop (off + 2) l1 l0 rest (IsWindow-drop buf stop off 2 xs _ e refl),
        )
        (elim (Bool-cases (ltb (length rest) (l1 * 256 + l0))) [
          | inl cut ↦
              let cut' : ltb stop (off + 4 + (l1 * 256 + l0)) ≡ true = ground arith in
              rw (cut, cut')
          | inr whole ↦
              let whole' : ltb stop (off + 4 + (l1 * 256 + l0)) ≡ false = ground arith in
              rw
                (
                  whole,
                  whole',
                  attribute-eq buf rest stop (t1 * 256 + t0) (l1 * 256 + l0) (off + 4) sub
                      hb.1.1.1.1 (ground arith),
                )
                (probe_next f off (l1 * 256 + l0) rest _ (probe_loop-eq f) sub hb.1.1.1.1
                  (omega arith))
        ])

abbrev pub claimed_length : Bytes → ℕ
claimed_length (_ ∷ _ ∷ a ∷ b ∷ _) = a * 256 + b
claimed_length _ = 0

-- The answer to a reply of `len` bytes in the buffer, without indices.
unfoldable pub reply_answer : Bytes → Bytes → ℕ → Outcome StunError SocketAddr
reply_answer tx_id buf len =
    if ltb len 20
    then err short_response
    else if not (message_type buf == 0x0101)
    then err unexpected_type
    else if not (same_bytes (transaction buf) tx_id)
    then err transaction_mismatch
    else outcome (find_mapped len (drop 20 (take (min (20 + claimed_length buf) len) buf)))

reply_long :
    (tx_id buf r : Bytes) (len a b c d : ℕ)
    → ltb len 20 ≡ false
    → len ≤ length buf
    → All IsByte buf
    → buf ≡ a ∷ b ∷ c ∷ d ∷ r
    → parse_reply tx_id buf len ≡ reply_answer tx_id buf len
unfolding parse_reply reply_answer
reply_long tx_id buf r len a b c d full fits hb e =
    let stop = min (20 + (c * 256 + d)) len in
    let kind : message_type buf ≡ a * 256 + b = ap message_type e in
    let claim : claimed_length buf ≡ c * 256 + d = ap claimed_length e in
    rw (
      full,
      kind,
      claim,
      u16_at-window buf 0 a b (c ∷ d ∷ r) e,
      u16_at-window buf 2 c d r (ap (drop 2) e),
      slice-window buf 8 12 _ refl (ground arith),
      probe_loop-eq buf stop (omega arith) len 20 _ refl
          (drop-IsByte 20 _ (take-IsByte stop buf hb))
          (ground (arith, length-drop 20 (take stop buf), length-take stop buf)),
    )

pub parse_reply-eq :
    (tx_id buf : Bytes) (len : ℕ)
    → len ≤ length buf
    → All IsByte buf
    → parse_reply tx_id buf len ≡ reply_answer tx_id buf len
parse_reply-eq tx_id buf len fits hb = elim (Bool-cases (ltb len 20)) [
  | inl small ↦ unfold parse_reply reply_answer in rw small
  | inr full ↦ by_bytes buf full fits hb (ground arith)
]
  where
    by_bytes :
        (bs : Bytes)
        → ltb len 20 ≡ false
        → len ≤ length bs
        → All IsByte bs
        → 20 ≤ len
        → parse_reply tx_id bs len ≡ reply_answer tx_id bs len
    by_bytes (a ∷ b ∷ c ∷ d ∷ r) full fits hb h =
        reply_long tx_id (a ∷ b ∷ c ∷ d ∷ r) r len a b c d full fits hb refl
    by_bytes _ full fits hb h = absurd (omega arith)

reply_answer_ends :
    (tx_id buf : Bytes) (len : ℕ)
    → (reply_answer tx_id buf len ≢ panic) × (reply_answer tx_id buf len ≢ out_of_fuel)
unfolding reply_answer
reply_answer_ends tx_id buf len = ground arith

-- On every reply in the buffer the parser of stun.rs returns an address or an error: no index is out
-- of range, whatever lengths the reply claims, and the attribute loop ends.
pub parse_reply_total :
    (tx_id buf : Bytes) (len : ℕ)
    → len ≤ length buf
    → All IsByte buf
    → (parse_reply tx_id buf len ≢ panic) × (parse_reply tx_id buf len ≢ out_of_fuel)
parse_reply_total tx_id buf len fits hb =
    rw (parse_reply-eq tx_id buf len fits hb) (reply_answer_ends tx_id buf len)

take-drop-take :
    (n m k : ℕ) (xs : Bytes) → m + n ≤ k → take n (drop m (take k xs)) ≡ take n (drop m xs)
take-drop-take zero m k xs h = refl
take-drop-take (suc n) zero zero xs h = absurd (omega arith)
take-drop-take (suc n) zero (suc k) [] h = refl
take-drop-take (suc n) zero (suc k) (x ∷ xs) h =
    ap (λ t. x ∷ t) (take-drop-take n 0 k xs (omega arith))
take-drop-take (suc n) (suc m) zero xs h = absurd (omega arith)
take-drop-take (suc n) (suc m) (suc k) [] h = refl
take-drop-take (suc n) (suc m) (suc k) (x ∷ xs) h = take-drop-take (suc n) m k xs (omega arith)

message_type-take : (k : ℕ) (xs : Bytes) → 2 ≤ k → message_type (take k xs) ≡ message_type xs
message_type-take (suc (suc k)) [] h = refl
message_type-take (suc (suc k)) (x ∷ []) h = refl
message_type-take (suc (suc k)) (x ∷ y ∷ xs) h = refl
message_type-take zero xs h = absurd (omega arith)
message_type-take (suc zero) xs h = absurd (omega arith)

-- On a reply whose header claims at least the bytes that came, and so hides none of them, the two
-- parsers of the program give the same answer, errors included.
pub parsers_agree :
    (request buf : Bytes) (len : ℕ)
    → length request ≡ 20
    → len ≤ length buf
    → All IsByte buf
    → len ≤ 20 + claimed_length buf
    → parse_reply (transaction request) buf len ≡ parse_stun_binding_response request (take len buf)
parsers_agree request buf len hr fits hb claim =
    let size : length (take len buf) ≡ len = omega (arith, length-take len buf) in
    let all : min (20 + claimed_length buf) len ≡ len = omega arith in
    parse_reply-eq (transaction request) buf len fits hb ∙ elim (Bool-cases (ltb len 20)) [
      | inl small ↦
          rw (parse-eq request (take len buf) hr) (unfold reply_answer answer in rw (size, small))
      | inr full ↦ rw (parse-eq request (take len buf) hr) (
          unfold reply_answer answer in
          rw (
            size,
            full,
            all,
            message_type-take len buf (ground arith),
            take-drop-take 12 8 len buf (ground arith),
          ))
    ]
