-- ===== src/Manager/Connect.antt =====
-- src/manager.rs: `connect_with_retries`, the QUIC handshakes of a client, and the streams that
-- `handle_client_proxy_connection` opens. What each attempt comes to is an argument.
use p2p_core.Base.{
  ℕ, String, Bool, Option, Outcome, arith, err, false, if◌then◌else◌, none, ok, refl, some, suc,
  zero, ◌+◌, ◌≡◌, ◌≢◌, ◌≤◌, Bool-cases, ap, inl, inr, ok-injective, sym, ◌↔◌, ◌∙◌,
}
use p2p_core.Text.{show_nat, ◌⧺◌}
use p2p_core.Models.{ConnectionState, NetworkStatus}
use p2p_core.Manager.{mutate_status}

abbrev pub client_connect_retry_attempts : ℕ
client_connect_retry_attempts = 10

-- `endpoint.connect` may fail at once; the handshake may fail or not come in time.
pub data Attempt : Type 0 where
  established : ℕ → Attempt
  not_started rejected : String → Attempt
  late : Attempt

abbrev pub connecting : ℕ → NetworkStatus → NetworkStatus
connecting attempt = mutate_status (λ s. record s {
  state = ConnectionState.connecting;
  note = some ("QUIC handshake, попытка " ⧺ show_nat attempt ⧺ "/10. Жду ответный NAT punch.");
})

abbrev pub last_or : Option String → String
last_or none = "не удалось установить QUIC session"
last_or (some e) = e

-- `n` attempts are left, of which the next has the number `attempt`; the token is looked at before
-- each.
unfoldable pub connect_loop :
    (ℕ → Bool)
    → (ℕ → Attempt)
    → ℕ
    → ℕ
    → Option String
    → NetworkStatus
    → Outcome String ℕ × NetworkStatus
connect_loop cancelled net zero attempt last s = (err (last_or last), s)
connect_loop cancelled net (suc n) attempt last s =
    let shown = connecting attempt s in
    let again : Option String → Outcome String ℕ × NetworkStatus =
      λ e. connect_loop cancelled net n (attempt + 1) e shown in
    if cancelled attempt then (err "подключение отменено", s) else elim (net attempt) [
      | established c ↦ (ok c, shown)
      | not_started e ↦ again (some ("не удалось запустить QUIC connect: " ⧺ e))
      | rejected e ↦ again (some e)
      | late ↦ again (some "QUIC handshake timed out")
    ]

unfoldable pub connect_with_retries :
    (ℕ → Bool) → (ℕ → Attempt) → NetworkStatus → Outcome String ℕ × NetworkStatus
connect_with_retries cancelled net s =
    connect_loop cancelled net client_connect_retry_attempts 1 none s

-- An independent account: the attempt that decides, looked for from one number on.
pub data Decides (cancelled : ℕ → Bool) (net : ℕ → Attempt) : ℕ → ℕ → Type 0 where
  here : {k c : ℕ} → cancelled k ≡ false → net k ≡ established c → Decides cancelled net k c
  next :
      {k c : ℕ}
      → cancelled k ≡ false
      → ((d : ℕ) → net k ≢ established d)
      → Decides cancelled net (k + 1) c
      → Decides cancelled net k c

abbrev pub turns_needed :
    {cancelled : ℕ → Bool} {net : ℕ → Attempt} {k c : ℕ} → Decides cancelled net k c → ℕ
turns_needed (here u e) = 1
turns_needed (next u e d) = suc (turns_needed d)

data Shape (a : Attempt) : Type 0 where
  came : (c : ℕ) → a ≡ established c → Shape a
  began : (e : String) → a ≡ not_started e → Shape a
  failed : (e : String) → a ≡ rejected e → Shape a
  waited : a ≡ late → Shape a

Attempt-cases : (a : Attempt) → Shape a
Attempt-cases (established c) = came c refl
Attempt-cases (not_started e) = began e refl
Attempt-cases (rejected e) = failed e refl
Attempt-cases late = waited refl

connect_loop-Decides :
    (cancelled : ℕ → Bool) (net : ℕ → Attempt) (n k c : ℕ) (last : Option String)
    (s : NetworkStatus) (d : Decides cancelled net k c)
    → turns_needed d ≤ n
    → (connect_loop cancelled net n k last s).0 ≡ ok c
unfolding connect_loop
connect_loop-Decides cancelled net zero k c last s (here u e) h = absurd (omega arith)
connect_loop-Decides cancelled net zero k c last s (next u e d) h = absurd (omega arith)
connect_loop-Decides cancelled net (suc n) k c last s (here u e) h = rw (u, e) refl
connect_loop-Decides cancelled net (suc n) k c last s (next u not_yet d) h =
    let again : (l : Option String) (t : NetworkStatus)
        → (connect_loop cancelled net n (k + 1) l t).0 ≡ ok c =
      λ l t. connect_loop-Decides cancelled net n (k + 1) c l t d (omega arith) in
    elim (Attempt-cases (net k)) [
      | came x e ↦ absurd (not_yet x e)
      | began x e ↦ rw (u, e) (again _ _)
      | failed x e ↦ rw (u, e) (again _ _)
      | waited e ↦ rw (u, e) (again _ _)
    ]

Decides-connect_loop :
    (cancelled : ℕ → Bool) (net : ℕ → Attempt) (n k c : ℕ) (last : Option String)
    (s : NetworkStatus)
    → (connect_loop cancelled net n k last s).0 ≡ ok c
    → (d : Decides cancelled net k c) × (turns_needed d ≤ n)
unfolding connect_loop
Decides-connect_loop cancelled net zero k c last s h = cc h
Decides-connect_loop cancelled net (suc n) k c last s h = elim (Bool-cases (cancelled k)) [
  | inl stop ↦
      let no : ◌≡◌ {A = Outcome String ℕ} (err "подключение отменено") (ok c) = rw stop at h in
      cc no
  | inr u ↦
      let again : (l : Option String)
          → (connect_loop cancelled net n (k + 1) l (connecting k s)).0 ≡ ok c
          → (d : Decides cancelled net (k + 1) c) × (turns_needed d ≤ n) =
        λ l e. Decides-connect_loop cancelled net n (k + 1) c l (connecting k s) e in
      elim (Attempt-cases (net k)) [
        | came x e ↦
            let is_ok : ◌≡◌ {A = Outcome String ℕ} (ok x) (ok c) = rw (u, e) at h in
            let is : x ≡ c = ok-injective is_ok in (here u (e ∙ ap established is), omega arith)
        | began x e ↦
            let (d, b) = again _ (rw (u, e) at h) in
            (next u (λ y f. cc (sym e ∙ f)) d, omega (arith, b))
        | failed x e ↦
            let (d, b) = again _ (rw (u, e) at h) in
            (next u (λ y f. cc (sym e ∙ f)) d, omega (arith, b))
        | waited e ↦
            let (d, b) = again _ (rw (u, e) at h) in
            (next u (λ y f. cc (sym e ∙ f)) d, omega (arith, b))
      ]
]

-- A connection is returned exactly when one of the ten attempts, counted from 1, establishes it,
-- every attempt before that one fails, and the token is not cancelled up to it.
pub connect_with_retries-Decides :
    (cancelled : ℕ → Bool) (net : ℕ → Attempt) (s : NetworkStatus) (c : ℕ)
    → ((connect_with_retries cancelled net s).0 ≡ ok c)
      ↔ ((d : Decides cancelled net 1 c) × (turns_needed d ≤ 10))
unfolding connect_with_retries
connect_with_retries-Decides cancelled net s c = (
  Decides-connect_loop cancelled net 10 1 c none s,
  λ (d, b). connect_loop-Decides cancelled net 10 1 c none s d b,
)
