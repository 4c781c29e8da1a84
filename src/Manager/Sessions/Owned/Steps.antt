-- ===== src/Manager/Sessions/Owned/Steps.antt =====
-- src/manager.rs: the steps of a host's tasks keep the tasks and the tokens of its relays in its hands.
use p2p_core.Base.{
  text_key, ℕ, Bool-cases, List, Option, String, [], false, inl, inr, insert, lookup, none, refl,
  some, str_eq, true, ◌++◌, ◌==◌, ◌+◌, ok, err, panic, out_of_fuel, Outcome, ◌∷◌, ◌≡◌, arith,
  Outcome, err, ok, out_of_fuel, panic, ◌+◌,
}
use p2p_core.Net.{SocketAddr, show_addr}
use p2p_core.Manager.Host.{
  HostSession, KickError, Connection, or_address, kick_peer, start_host_relay, accept_connection,
}
use p2p_core.Manager.Sessions.{
  done, HostControl, HostRelayRuntime, SessionControl, SessionRuntime, World, client, end_relay,
  host, prepared_client, without_all,
}
use p2p_core.Manager.Sessions.Relays.{
  HostStep, arms, ends_connection, host_step, kicked, kicks_peer, on_control, on_host, take_out,
  takes, arm_relay, accept_direct, spawn_relay,
}
use p2p_core.Manager.Sessions.Commands.{host_view, with_host}
use p2p_core.Manager.Sessions.Owned.{
  AllIn, IsOwned, e4mc_task, e4mc_token, member, relay_ids, without-All,
}

-- Of some numbers, all but the old ones are kept.
abbrev Keeps : List ℕ → List ℕ → List ℕ → Type 0
Keeps old ks is = (t : ℕ) → member t ks ≡ true → member t old ≡ false → member t is ≡ true

Keeps-append : (old front ks is : List ℕ) → Keeps old ks is → Keeps old (front ++ ks) (front ++ is)
Keeps-append old [] ks is keeps t h gone = keeps t h gone
Keeps-append old (a ∷ front) ks is keeps t h gone = elim (Bool-cases (t == a)) [
  | inl e ↦ rw e refl
  | inr e ↦ rw e (Keeps-append old front ks is keeps t (rw e at h) gone)
]

Keeps-cons :
    (old ks is : List ℕ) (a : ℕ) → member a is ≡ true → Keeps old ks is → Keeps old (a ∷ ks) is
Keeps-cons old ks is a now keeps t h gone = elim (Bool-cases (t == a)) [
  | inl e ↦ let same : t ≡ a = ground (arith, e) in rw same now
  | inr e ↦ keeps t (rw e at h) gone
]

member-append_right :
    (t : ℕ) (front ks : List ℕ) → member t ks ≡ true → member t (front ++ ks) ≡ true
member-append_right t [] ks h = h
member-append_right t (a ∷ front) ks h = elim (Bool-cases (t == a)) [
  | inl e ↦ rw e refl
  | inr e ↦ rw e (member-append_right t front ks h)
]

AllIn-cons : (a : ℕ) (ks ts : List ℕ) → AllIn ks ts → AllIn (a ∷ ks) (a ∷ ts)
AllIn-cons a ks ts h = (ground arith, All-later ts h)
  where
    All-later : (ts : List ℕ) → AllIn ks ts → AllIn (a ∷ ks) ts
    All-later [] h = tt
    All-later (t ∷ ts) h =
        (elim (Bool-cases (t == a)) [ inl e ↦ rw e refl | inr e ↦ rw e h.0 ], All-later ts h.1)

-- The numbers of a relay that is ended.
abbrev found_ids : (HostRelayRuntime → ℕ) → Option HostRelayRuntime → List ℕ
found_ids f none = []
found_ids f (some r) = f r ∷ []

AllIn-found :
    (f : HostRelayRuntime → ℕ) (o : Option HostRelayRuntime) (ks is ts : List ℕ)
    → Keeps (found_ids f o) ks is
    → AllIn ks ts
    → AllIn is (without_all (found_ids f o) ts)
AllIn-found f none ks is [] keeps h = tt
AllIn-found f none ks is (t ∷ ts) keeps h =
    (keeps t h.0 refl, AllIn-found f none ks is ts keeps h.1)
AllIn-found f (some r) ks is ts keeps h =
    without-All _ _ (f r) ts (λ t p e. keeps t p (rw e refl)) h

module _ (f : HostRelayRuntime → ℕ) where
  Keeps-insert :
      (id : String) (v : HostRelayRuntime) (m : List (String × HostRelayRuntime))
      → Keeps (found_ids f (lookup id m)) (relay_ids f m) (relay_ids f (insert id v m))
  Keeps-insert id v [] t h gone = cc h
  Keeps-insert id v ((k, r) ∷ m) t h gone = elim (Bool-cases (str_eq k id)) [
    | inl e ↦ elim (Bool-cases (t == f r)) [
      | inl old ↦ let no : true ≡ false = rw (e, old) at gone in cc no
      | inr other ↦
          let later : member t (relay_ids f m) ≡ true = rw other at h in
          rw e (member-append_right t (f v ∷ []) (relay_ids f m) later)
    ]
    | inr e ↦ elim (Bool-cases (t == f r)) [
      | inl same ↦ rw (e, same) refl
      | inr other ↦ rw (e, other) (Keeps-insert id v m t (rw other at h) (rw e at gone))
    ]
  ]

  member-insert :
      (id : String) (v : HostRelayRuntime) (m : List (String × HostRelayRuntime))
      → member (f v) (relay_ids f (insert id v m)) ≡ true
  member-insert id v [] = ground arith
  member-insert id v ((k, r) ∷ m) = elim (Bool-cases (str_eq k id)) [
    | inl e ↦ rw e (ground arith)
    | inr e ↦ rw e (member-append_right (f v) (f r ∷ []) _ (member-insert id v m))
  ]

  Keeps-take_out :
      (id : String) (m : List (String × HostRelayRuntime))
      → Keeps (found_ids f (lookup id m)) (relay_ids f m) (relay_ids f (take_out id m))
  unfolding take_out
  Keeps-take_out id [] t h gone = cc h
  Keeps-take_out id ((k, r) ∷ m) t h gone = elim (Bool-cases (str_eq k id)) [
    | inl e ↦ elim (Bool-cases (t == f r)) [
      | inl old ↦ let no : true ≡ false = rw (e, old) at gone in cc no
      | inr other ↦ let later : member t (relay_ids f m) ≡ true = rw other at h in rw e later
    ]
    | inr e ↦ elim (Bool-cases (t == f r)) [
      | inl same ↦ rw (e, same) refl
      | inr other ↦ rw (e, other) (Keeps-take_out id m t (rw other at h) (rw e at gone))
    ]
  ]

abbrev Relays : Type 0
Relays = List (String × HostRelayRuntime)

abbrev task : HostRelayRuntime → ℕ
task x = x.runtime

abbrev token : HostRelayRuntime → ℕ
token x = x.cancel

-- What the session of a host owns with these relays.
abbrev tasks_with : SessionRuntime → HostControl → Relays → List ℕ
tasks_with r h m = r.tasks ++ (e4mc_task (host h) ++ relay_ids task m)

abbrev tokens_with : SessionRuntime → HostControl → Relays → List ℕ
tokens_with r h m = r.cancel ∷ (e4mc_token (host h) ++ relay_ids token m)

Keeps-tasks :
    (r : SessionRuntime) (h : HostControl) (old : List ℕ) (m n : Relays)
    → Keeps old (relay_ids task m) (relay_ids task n)
    → Keeps old (tasks_with r h m) (tasks_with r h n)
Keeps-tasks r h old m n keeps =
    Keeps-append old r.tasks (e4mc_task (host h) ++ relay_ids task m)
      (e4mc_task (host h) ++ relay_ids task n)
      (Keeps-append old (e4mc_task (host h)) (relay_ids task m) (relay_ids task n) keeps)

Keeps-tokens :
    (r : SessionRuntime) (h : HostControl) (old : List ℕ) (m n : Relays)
    → Keeps old (relay_ids token m) (relay_ids token n)
    → Keeps old (tokens_with r h m) (tokens_with r h n)
Keeps-tokens r h old m n keeps =
    Keeps-append old (r.cancel ∷ []) (e4mc_token (host h) ++ relay_ids token m)
      (e4mc_token (host h) ++ relay_ids token n)
      (Keeps-append old (e4mc_token (host h)) (relay_ids token m) (relay_ids token n) keeps)

-- The relay of a peer, where there is one, is ended, and the map is another.
relays-IsOwned :
    (o : Option HostRelayRuntime) (r : SessionRuntime) (h : HostControl) (v : HostSession)
    (w : World) (m : Relays) (ks is : List ℕ)
    → Keeps (found_ids task o) ks (tasks_with r h m)
    → Keeps (found_ids token o) is (tokens_with r h m)
    → AllIn ks w.tasks
    → AllIn is w.tokens
    → IsOwned (end_relay o (with_host r (record h { relay_sessions = m }) v w))
relays-IsOwned none r h v w m ks is tasks tokens old_tasks old_tokens = record {
  tasks_owned = AllIn-found task none ks (tasks_with r h m) w.tasks tasks old_tasks;
  tokens_owned = AllIn-found token none is (tokens_with r h m) w.tokens tokens old_tokens;
}
relays-IsOwned (some x) r h v w m ks is tasks tokens old_tasks old_tokens = record {
  tasks_owned = AllIn-found task (some x) ks (tasks_with r h m) w.tasks tasks old_tasks;
  tokens_owned = AllIn-found token (some x) is (tokens_with r h m) w.tokens tokens old_tokens;
}

abbrev AreHeld : SessionRuntime → HostControl → World → Type 0
AreHeld r h w =
    AllIn (tasks_with r h h.relay_sessions) w.tasks
    × AllIn (tokens_with r h h.relay_sessions) w.tokens

arm_relay-IsOwned :
    (id session_id : String) (r : SessionRuntime) (h : HostControl) (w : World)
    → AreHeld r h w
    → IsOwned (arm_relay id session_id (done tt) r h w)
arm_relay-IsOwned id session_id r h w held =
    let armed : HostRelayRuntime = record {
      session_id = session_id;
      cancel = w.fresh;
      runtime = w.fresh + 1;
    } in
    let rs = h.relay_sessions in
    let m = insert id armed rs in
    let o = lookup id rs in
    let ks = tasks_with r h rs in
    let is = tokens_with r h rs in
    let new_task : member (w.fresh + 1) (tasks_with r h m) ≡ true =
      member-append_right (w.fresh + 1) r.tasks (e4mc_task (host h) ++ relay_ids task m) (
        member-append_right (w.fresh + 1) (e4mc_task (host h)) (relay_ids task m)
          (member-insert task id armed rs)) in
    let new_token : member w.fresh (tokens_with r h m) ≡ true =
      member-append_right w.fresh (r.cancel ∷ []) (e4mc_token (host h) ++ relay_ids token m) (
        member-append_right w.fresh (e4mc_token (host h)) (relay_ids token m)
          (member-insert token id armed rs)) in
    relays-IsOwned o r h (start_host_relay id session_id none (host_view h w)) (spawn_relay w) m
      ((w.fresh + 1) ∷ ks) (w.fresh ∷ is)
      (Keeps-cons (found_ids task o) ks (tasks_with r h m) (w.fresh + 1) new_task
        (Keeps-tasks r h (found_ids task o) rs m (Keeps-insert task id armed rs)))
      (Keeps-cons (found_ids token o) is (tokens_with r h m) w.fresh new_token
        (Keeps-tokens r h (found_ids token o) rs m (Keeps-insert token id armed rs)))
      (AllIn-cons (w.fresh + 1) ks w.tasks held.0) (AllIn-cons w.fresh is w.tokens held.1)

accept_direct-IsOwned :
    (remote : SocketAddr) (conn : Connection) (rtt : ℕ) (r : SessionRuntime) (h : HostControl)
    (w : World)
    → AreHeld r h w
    → IsOwned (accept_direct remote conn rtt r h w)
accept_direct-IsOwned remote conn rtt r h w held =
    let id = or_address (lookup (show_addr remote) h.expected_peers) remote in
    let rs = h.relay_sessions in
    let o = lookup id rs in
    relays-IsOwned o r h (accept_connection remote conn rtt (host_view h w)) w (take_out id rs)
      (tasks_with r h rs) (tokens_with r h rs)
      (Keeps-tasks r h (found_ids task o) rs (take_out id rs) (Keeps-take_out task id rs))
      (Keeps-tokens r h (found_ids token o) rs (take_out id rs) (Keeps-take_out token id rs)) held.0
      held.1

-- A relay that is started has a start that succeeds.
abbrev pub StartsRelay : HostStep → Type 0
StartsRelay (arms id session_id started) = started ≡ done tt
StartsRelay (takes remote conn rtt) = Unit {0}
StartsRelay (ends_connection id) = Unit {0}
StartsRelay (kicks_peer id) = Unit {0}

kicked-IsOwned :
    (r : SessionRuntime) (h : HostControl) (o : Outcome KickError HostSession) (w : World)
    → AreHeld r h w
    → IsOwned w
    → IsOwned (kicked r h o w)
kicked-IsOwned r h (ok v) w held k = record { tasks_owned = held.0; tokens_owned = held.1 }
kicked-IsOwned r h (err e) w held k = k
kicked-IsOwned r h panic w held k = k
kicked-IsOwned r h out_of_fuel w held k = k

host_step-IsOwned :
    (s : HostStep) (r : SessionRuntime) (h : HostControl) (w : World)
    → StartsRelay s
    → AreHeld r h w
    → IsOwned w
    → IsOwned (host_step s r h w)
unfolding host_step
host_step-IsOwned (arms id session_id started) r h w starts held k =
    rw starts (arm_relay-IsOwned id session_id r h w held)
host_step-IsOwned (takes remote conn rtt) r h w starts held k =
    accept_direct-IsOwned remote conn rtt r h w held
host_step-IsOwned (ends_connection id) r h w starts held k = record {
  tasks_owned = held.0;
  tokens_owned = held.1;
}
host_step-IsOwned (kicks_peer id) r h w starts held k =
    kicked-IsOwned r h (kick_peer id (host_view h w)) w held k

on_control-IsOwned :
    (s : HostStep) (c : SessionControl) (r : SessionRuntime) (w : World)
    → StartsRelay s
    → w.session ≡ some r
    → r.control ≡ c
    → IsOwned w
    → IsOwned (on_control s c r w)
on_control-IsOwned s (host h) r w starts e c k =
    host_step-IsOwned s r h w starts (rw (e, c) at k.tasks_owned, rw (e, c) at k.tokens_owned) k
on_control-IsOwned s (prepared_client p) r w starts e c k = k
on_control-IsOwned s (client a) r w starts e c k = k

pub on_host-IsOwned :
    (s : HostStep) (o : Option SessionRuntime) (w : World)
    → StartsRelay s
    → w.session ≡ o
    → IsOwned w
    → IsOwned (on_host s o w)
on_host-IsOwned s none w starts e k = k
on_host-IsOwned s (some r) w starts e k = on_control-IsOwned s r.control r w starts e refl k
