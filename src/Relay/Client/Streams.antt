-- ===== src/Relay/Client/Streams.antt =====
-- The streams of a client session, under every interleaving of its tasks.
use p2p_core.Base.{
  nat_key, ℕ, Bool, remove, suc, Bool-cases, List, arith, contains_key, contains_key-remove, inl,
  inr, length, refl, true, ◌&&◌, ◌==◌, ◌≡◌, ap, contains_key-insert, false, if◌then◌else◌, ◌+◌, ◌<◌,
  ◌^◌, ◌∙◌, ◌≢◌, ◌≤◌,
}
use p2p_core.Base.Words.{u64}
use p2p_core.Relay.{Frame, frame_ready}
use p2p_core.Relay.Host.{tcp, Session, deliver, on_pong}
use p2p_core.Relay.Client.{
  Client, Ready, accept, connection, accept_error, client_frame, dispatch_client, keepalive, linked,
  on_ready, on_session,
}

-- The states that a session passes through, with the number of connections accepted in it: each
-- task of it may take the next step.
pub data Reaches (r : Ready) : ℕ → Client → Type 0 where
  starts : Reaches r 0 (linked r)
  accepting : {n : ℕ} (c : Client) → Reaches r n c → Reaches r (suc n) (accept (connection true) c)
  not_accepting : {n : ℕ} (c : Client) → Reaches r n c → Reaches r n (accept accept_error c)
  reading :
      {n : ℕ} (now : ℕ) (report : Bool) (f : Frame) (c : Client)
      → Reaches r n c
      → Reaches r n (dispatch_client now report f c)
  keeping_alive :
      {n : ℕ} (now : ℕ) (c : Client) → Reaches r n c → Reaches r n (on_session (keepalive now) c)
  ending :
      {n : ℕ} (id : ℕ) (c : Client)
      → Reaches r n c
      → Reaches r n (on_session (λ s. record s { streams = remove id s.streams }) c)

deliver-streams : (f : Frame) (s : Session) → (deliver f s).streams ≡ s.streams
unfolding deliver
deliver-streams f s = elim (Bool-cases (contains_key f.stream_id s.streams)) [
  | inl e ↦ rw e refl
  | inr e ↦ rw e refl
]

on_pong-streams :
    (now : ℕ) (report : Bool) (f : Frame) (s : Session)
    → (on_pong now report f s).streams ≡ s.streams
unfolding on_pong
on_pong-streams now report f s = elim (Bool-cases (length f.payload == 8 && report)) [
  | inl e ↦ rw e refl
  | inr e ↦ rw e refl
]

remove-contains :
    {V : Type 0} (a b : ℕ) (m : List (ℕ × V))
    → contains_key b (remove a m) ≡ true
    → contains_key b m ≡ true
remove-contains a b m h = ground (arith, contains_key-remove a b m)

-- The frames of the host open no stream.
client_frame-opens_none :
    (now : ℕ) (report : Bool) (f : Frame) (s : Session) (id : ℕ)
    → contains_key id (client_frame now report f s).streams ≡ true
    → contains_key id s.streams ≡ true
unfolding client_frame
client_frame-opens_none now report f s id h = ground (
  arith,
  deliver-streams f s,
  on_pong-streams now report f s,
  remove-contains f.stream_id id s.streams,
)

-- The counter is one past the connections accepted, and every open stream has an id that the
-- counter gave.
IsNumbered : ℕ → Client → Type 0
IsNumbered n c =
    (c.counter ≡ suc n)
    × ((id : ℕ) → contains_key id c.session.streams ≡ true → (1 ≤ id) × (id ≤ n))

accept-IsNumbered :
    (n : ℕ) (c : Client)
    → suc n < 2 ^ 64
    → suc (suc n) < 2 ^ 64
    → IsNumbered n c
    → IsNumbered (suc n) (accept (connection true) c)
unfolding IsNumbered accept
accept-IsNumbered n c h h2 inv = (
  ap (λ k. u64 (k + 1)) inv.0 ∙ omega arith,
  λ id opened. elim (Bool-cases (c.counter == id)) [
    | inl e ↦ ground (arith, inv.0)
    | inr e ↦
        let old : contains_key id c.session.streams ≡ true =
          rw (contains_key-insert c.counter id tcp c.session.streams, e) at opened in
        let b = inv.1 id old in (b.0, omega (arith, b.1))
  ],
)

Reaches-IsNumbered :
    (r : Ready) (n : ℕ) (c : Client) → Reaches r n c → suc n < 2 ^ 64 → IsNumbered n c
unfolding IsNumbered accept dispatch_client on_session keepalive
Reaches-IsNumbered r n c starts h = (refl, λ id o. cc o)
Reaches-IsNumbered r n c (accepting {n = m} d before) h =
    accept-IsNumbered m d (omega arith) h (Reaches-IsNumbered r m d before (omega arith))
Reaches-IsNumbered r n c (not_accepting d before) h = Reaches-IsNumbered r n d before h
Reaches-IsNumbered r n c (reading now report f d before) h =
    let inv = Reaches-IsNumbered r n d before h in
    elim (Bool-cases (f.kind == frame_ready)) [
      | inl e ↦ rw e inv
      | inr e ↦ rw e (inv.0, λ id o. inv.1 id (client_frame-opens_none now report f d.session id o))
    ]
Reaches-IsNumbered r n c (keeping_alive now d before) h = Reaches-IsNumbered r n d before h
Reaches-IsNumbered r n c (ending id d before) h =
    let inv = Reaches-IsNumbered r n d before h in
    (inv.0, λ k o. inv.1 k (remove-contains id k d.session.streams o))

-- In every state that a client session passes through, fewer than 2^64 - 1 connections accepted,
-- the id of the next stream names no open stream and is not 0, the id of a Bedrock game.
pub next_stream_fresh :
    (r : Ready) (n : ℕ) (c : Client)
    → Reaches r n c
    → suc n < 2 ^ 64
    → (contains_key c.counter c.session.streams ≡ false) × (c.counter ≢ 0)
unfolding IsNumbered
next_stream_fresh r n c reached h =
    let inv = Reaches-IsNumbered r n c reached h in
    (
      elim (Bool-cases (contains_key c.counter c.session.streams)) [
        | inl open_id ↦ let b = inv.1 c.counter open_id in absurd (omega (arith, inv.0, b.1))
        | inr free ↦ free
      ],
      λ e. omega (arith, inv.0, e),
    )

-- `Ok(())`s told, and still to tell.
abbrev pub answers : Ready → ℕ
answers r = r.answered + (if r.signal then 1 else 0)

on_ready-answers : (r : Ready) → answers (on_ready r) ≡ answers r
unfolding on_ready
on_ready-answers r = ground arith

-- However many READY frames come, the caller of `start_client_runtime` is answered at most once:
-- what was told and what is left to tell stay the same number.
pub ready_answered_once :
    (r : Ready) (n : ℕ) (c : Client) → Reaches r n c → answers c.ready ≡ answers r
unfolding accept dispatch_client on_session
ready_answered_once r n c starts = refl
ready_answered_once r n c (accepting d before) = ready_answered_once r _ d before
ready_answered_once r n c (not_accepting d before) = ready_answered_once r n d before
ready_answered_once r n c (reading now report f d before) =
    let old = ready_answered_once r n d before in
    elim (Bool-cases (f.kind == frame_ready)) [
      | inl e ↦ rw e (on_ready-answers d.ready ∙ old)
      | inr e ↦ rw e old
    ]
ready_answered_once r n c (keeping_alive now d before) = ready_answered_once r n d before
ready_answered_once r n c (ending id d before) = ready_answered_once r n d before
