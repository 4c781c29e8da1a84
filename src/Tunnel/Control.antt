-- ===== src/Tunnel/Control.antt =====
-- src/tunnel.rs: which connections are accepted, and which attempt at the local target counts.
use p2p_core.Base.{
  ℕ, All, List, Option, String, [], ap, arith, none, refl, some, suc, zero, ◌++◌, ◌+◌, ◌<◌, ◌∙◌,
  ◌∷◌, ◌≡◌,
}
use p2p_core.Text.{◌⧺◌}
use p2p_core.Tunnel.{
  Result, done, failed, ControlEvent, cancelled, received, message, closed, broken, heartbeat,
  connection, error, ServerMessage, connect_local_target_with_retry, control_loop, retry_loop,
}

-- The end that an event is, read off the protocol: `none` for a message that keeps the loop going.
abbrev pub end_of : ControlEvent → Option (Result (Unit {0}))
end_of cancelled = some (done tt)
end_of (received closed) = some (done tt)
end_of (received (broken e)) = some (failed e)
end_of (received (message heartbeat)) = none
end_of (received (message (ServerMessage.hello port))) = none
end_of (received (message (connection id))) = none
end_of (received (message (error text))) = some (failed ("reverse tunnel server error: " ⧺ text))

abbrev pub id_of : ControlEvent → List String
id_of cancelled = []
id_of (received closed) = []
id_of (received (broken e)) = []
id_of (received (message heartbeat)) = []
id_of (received (message (ServerMessage.hello port))) = []
id_of (received (message (connection id))) = id ∷ []
id_of (received (message (error text))) = []

unfoldable pub connections_of : List ControlEvent → List String
connections_of [] = []
connections_of (e ∷ es) = id_of e ++ connections_of es

abbrev pub KeepsGoing : ControlEvent → Type 0
KeepsGoing e = end_of e ≡ none

-- The loop accepts the connections that the server announces before the event that ends it, each once and in their order, and ends as that event says: well on cancelling and on the end of the stream, with an error on the server's error and on an unreadable frame.
pub control_loop-accepts :
    (before after : List ControlEvent) (e : ControlEvent) (r : Result (Unit {0}))
    → All KeepsGoing before
    → end_of e ≡ some r
    → ((control_loop (before ++ (e ∷ after))).accepted ≡ connections_of before)
      × ((control_loop (before ++ (e ∷ after))).ended ≡ some r)
unfolding control_loop connections_of
control_loop-accepts [] after cancelled r h k = (refl, k)
control_loop-accepts [] after (received closed) r h k = (refl, k)
control_loop-accepts [] after (received (broken e)) r h k = (refl, k)
control_loop-accepts [] after (received (message heartbeat)) r h k = cc
control_loop-accepts [] after (received (message (ServerMessage.hello port))) r h k = cc
control_loop-accepts [] after (received (message (connection id))) r h k = cc
control_loop-accepts [] after (received (message (error text))) r h k = (refl, k)
control_loop-accepts (cancelled ∷ es) after e r h k = cc (h.0)
control_loop-accepts (received closed ∷ es) after e r h k = cc (h.0)
control_loop-accepts (received (broken t) ∷ es) after e r h k = cc (h.0)
control_loop-accepts (received (message (error t)) ∷ es) after e r h k = cc (h.0)
control_loop-accepts (received (message heartbeat) ∷ es) after e r h k =
    control_loop-accepts es after e r h.1 k
control_loop-accepts (received (message (ServerMessage.hello port)) ∷ es) after e r h k =
    control_loop-accepts es after e r h.1 k
control_loop-accepts (received (message (connection id)) ∷ es) after e r h k =
    let (ids, ended) = control_loop-accepts es after e r h.1 k in (ap (λ t. id ∷ t) ids, ended)

retry_loop-first :
    (net : ℕ → Result ℕ) (n k j stream : ℕ) (last : Option String)
    → j < n
    → ((i : ℕ) → i < j → (e : String) × (net (k + i) ≡ failed e))
    → net (k + j) ≡ done stream
    → retry_loop net n k last ≡ done stream
unfolding retry_loop
retry_loop-first net zero k j stream last lt before e = absurd (omega arith)
retry_loop-first net (suc n) k zero stream last lt before e =
    let here : net k ≡ done stream = ap net (omega arith) ∙ e in rw here refl
retry_loop-first net (suc n) k (suc j) stream last lt before e =
    let (text, lost) = before 0 (omega arith) in
    let here : net k ≡ failed text = ap net (omega arith) ∙ lost in
    rw here (
      retry_loop-first net n (k + 1) j stream (some text) (omega arith)
        (λ i h. let (t, l) = before (suc i) (omega arith) in (t, ap net (omega arith) ∙ l))
        (ap net (omega arith) ∙ e))

-- The first of the five attempts at the local target that succeeds gives the stream.
pub connect_local_target_with_retry-first :
    (net : ℕ → Result ℕ) (j stream : ℕ)
    → j < 5
    → ((i : ℕ) → i < j → (e : String) × (net (1 + i) ≡ failed e))
    → net (1 + j) ≡ done stream
    → connect_local_target_with_retry net ≡ done stream
unfolding connect_local_target_with_retry
connect_local_target_with_retry-first net j stream lt before e =
    retry_loop-first net 5 1 j stream none lt before e
