-- ===== src/TestServer/Echo.antt =====
-- What the probe gets back from the server.
use p2p_core.Base.{
  ℕ, All, All-append, All-map, [], ap, arith, false, inl, refl, ◌++◌, ◌∙◌, ◌∷◌, ◌≡◌, List, String,
  append_assoc, length, sym, take-all, ◌≤◌,
}
use p2p_core.Base.Words.{Bytes}
use p2p_core.Models.{NetworkStatus}
use p2p_core.Text.{is_whitespace, ◌⧺◌}
use p2p_core.Text.Chars.{Chars, trim_chars}
use p2p_core.Text.Chars.Trim.{IsUnspaced, trim_chars-newline}
use p2p_core.Text.Encodings.{chars_of}
use p2p_core.Text.Encodings.RoundTrip.{chars_of-utf8}
use p2p_core.Text.Numbers.{decimal, decimal-IsDigit, IsDigit}
use p2p_core.Text.Utf8.{codes, from_utf8_lossy, from_utf8_lossy-IsUtf8}
use p2p_core.Text.Utf8.Encode.{IsScalar, utf8, utf8-IsUtf8, utf8-first}
use p2p_core.Manager.Sessions.{done}
use p2p_core.TestServer.{
  ClientTurn, handle_client, echo_loop, response, received_text, probe_answer, probe_request,
  log_status, received_log,
}

-- A text without white space, and a line end: what is received is the text.
received_text-line :
    (t : Chars) → All IsScalar t → IsUnspaced t → received_text (utf8 (t ++ (10 ∷ []))) ≡ t
unfolding received_text
received_text-line t h k =
    let whole = All-append IsScalar t (10 ∷ []) h (inl (omega arith), tt) in
    ap (λ b. trim_chars (chars_of b))
      (from_utf8_lossy-IsUtf8 (utf8 (t ++ (10 ∷ []))) (utf8-IsUtf8 (t ++ (10 ∷ [])) whole))
    ∙ ap trim_chars (chars_of-utf8 (t ++ (10 ∷ [])) whole)
    ∙ trim_chars-newline t k

digit-IsUnspaced : (d : ℕ) → IsDigit d → is_whitespace d ≡ false
unfolding is_whitespace
digit-IsUnspaced d h = ground arith

-- The line of an answer, without its end.
abbrev pub echoed : ℕ → Chars → Chars
echoed timestamp payload = codes "echo:" ++ (decimal timestamp ++ (b':' ∷ payload))

probe_answer-all : (b : Bytes) → length b ≤ 2048 → probe_answer b ≡ received_text b
unfolding probe_answer
probe_answer-all [] h = unfold received_text trim_chars chars_of from_utf8_lossy in refl
probe_answer-all (b ∷ bs) h = ap received_text (take-all 2048 (b ∷ bs) h)

-- What holds of the fixed characters, of digits and of the payload holds of the line.
All-echoed :
    (P : ℕ → Type 0) (ts : ℕ) (payload : Chars)
    → All P (codes "echo:")
    → ((d : ℕ) → IsDigit d → P d)
    → All P payload
    → All P (echoed ts payload)
All-echoed P ts payload fixed digit h =
    All-append P (codes "echo:") (decimal ts ++ (b':' ∷ payload)) fixed (
      All-append P (decimal ts) (b':' ∷ payload)
        (All-map IsDigit P digit (decimal ts) (decimal-IsDigit ts)) (fixed.1.1.1.1.0, h))

echo_spaces : IsUnspaced (codes "echo:")
unfolding is_whitespace
echo_spaces = (refl, (refl, (refl, (refl, (refl, tt)))))

response-line :
    (ts : ℕ) (payload : Chars) → response ts payload ≡ utf8 (echoed ts payload ++ (10 ∷ []))
unfolding response
response-line ts payload =
    ap (λ t. utf8 (codes "echo:" ++ t)) (sym (append_assoc (decimal ts) (b':' ∷ payload) (10 ∷ [])))

probe_answer-response :
    (ts : ℕ) (payload : Chars)
    → All IsScalar payload
    → IsUnspaced payload
    → length (response ts payload) ≤ 2048
    → probe_answer (response ts payload) ≡ echoed ts payload
probe_answer-response ts payload h k small =
    let scalars = All-echoed IsScalar ts payload (ground arith) (λ d i. inl (omega arith)) h in
    let unspaced =
      All-echoed (λ c. is_whitespace c ≡ false) ts payload echo_spaces digit-IsUnspaced k in
    probe_answer-all (response ts payload) small
    ∙ ap received_text (response-line ts payload)
    ∙ received_text-line (echoed ts payload) scalars unspaced

request-first : (payload : Chars) → (b : ℕ) × (bs : Bytes) × (probe_request payload ≡ b ∷ bs)
unfolding probe_request
request-first [] = utf8-first 10 []
request-first (c ∷ cs) = utf8-first c (cs ++ (10 ∷ []))

request-received :
    (payload : Chars)
    → All IsScalar payload
    → IsUnspaced payload
    → received_text (probe_request payload) ≡ payload
unfolding probe_request
request-received payload h k = received_text-line payload h k

-- The probe of a payload without white space, which the server reads whole in its first turn and
-- whose answer fits the 2048 bytes of the buffer of the probe, gets back the payload behind the server's time.
pub probe-echoed :
    (addr : String) (payload : Chars) (ts : ℕ) (later : List ClientTurn) (s : NetworkStatus)
    → All IsScalar payload
    → IsUnspaced payload
    → length (response ts payload) ≤ 2048
    → (answer : Bytes) × (rest : List Bytes) × ((handle_client addr
          (record { read = done (probe_request payload); timestamp = ts; written = done tt }
            ∷ later)
          s).answers
        ≡ answer ∷ rest)
      × (probe_answer answer ≡ echoed ts payload)
unfolding handle_client
probe-echoed addr payload ts later s h k small =
    let (b, bs, e) = request-first payload in
    let heard : received_text (b ∷ bs) ≡ payload =
      ap received_text (sym e) ∙ request-received payload h k in
    let joined = log_status ("Тестовый сервер: клиент " ⧺ addr ⧺ " подключился.") s in
    let rest = (echo_loop addr later (received_log addr (b ∷ bs) joined)).answers in
    (
      response ts payload,
      rest,
      rw e (ap (λ t. response ts t ∷ rest) heard),
      probe_answer-response ts payload h k small,
    )
