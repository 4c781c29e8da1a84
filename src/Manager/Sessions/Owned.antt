-- ===== src/Manager/Sessions/Owned.antt =====
-- src/manager.rs: the session owns every task and token that the manager keeps a handle of.
pub mod Kept
pub mod Steps
pub mod Runs
use p2p_core.Base.{
  ℕ, All, Bool, Bool-cases, List, Option, Option-cases, [], false, if◌then◌else◌, inl, inr, none,
  refl, some, true, ◌++◌, ◌==◌, ◌∷◌, ◌≡◌, append-nil, String, ap, sym, ◌∙◌,
}
use p2p_core.Manager.Host.{Connection}
use p2p_core.Manager.Sessions.{
  closings, HostRelayRuntime, end_relay, end_relays, SessionControl, World, host, prepared_client,
  client, SessionRuntime, end_control, without, without_all, cancel_token, end_session,
  reset_session,
}

abbrev pub member : ℕ → List ℕ → Bool
member t [] = false
member t (k ∷ ks) = if t == k then true else member t ks

abbrev pub e4mc_task : SessionControl → List ℕ
e4mc_task (prepared_client c) = []
e4mc_task (client a) = []
e4mc_task (host h) = elim h.e4mc_runtime [ none ↦ [] | some (token, task) ↦ task ∷ [] ]

abbrev pub e4mc_token : SessionControl → List ℕ
e4mc_token (prepared_client c) = []
e4mc_token (client a) = []
e4mc_token (host h) = elim h.e4mc_runtime [ none ↦ [] | some (token, task) ↦ token ∷ [] ]

abbrev pub relay_ids : (HostRelayRuntime → ℕ) → List (String × HostRelayRuntime) → List ℕ
relay_ids f [] = []
relay_ids f ((id, r) ∷ rs) = f r ∷ relay_ids f rs

abbrev pub relays_of : SessionControl → List (String × HostRelayRuntime)
relays_of (prepared_client c) = []
relays_of (client a) = []
relays_of (host h) = h.relay_sessions

abbrev pub live_of : SessionControl → List (String × Connection)
live_of (prepared_client c) = []
live_of (client a) = []
live_of (host h) = h.live_connections

abbrev pub control_tasks : SessionControl → List ℕ
control_tasks c = e4mc_task c ++ relay_ids (λ r. r.runtime) (relays_of c)

abbrev pub control_tokens : SessionControl → List ℕ
control_tokens c = e4mc_token c ++ relay_ids (λ r. r.cancel) (relays_of c)

abbrev pub owned_tasks : Option SessionRuntime → List ℕ
owned_tasks none = []
owned_tasks (some r) = r.tasks ++ control_tasks r.control

abbrev pub owned_tokens : Option SessionRuntime → List ℕ
owned_tokens none = []
owned_tokens (some r) = r.cancel ∷ control_tokens r.control

abbrev pub AllIn : List ℕ → List ℕ → Type 0
AllIn ks ts = All (λ t. member t ks ≡ true) ts

pub record IsOwned (w : World) : Type 0 where
  pub tasks_owned : AllIn (owned_tasks w.session) w.tasks
  pub tokens_owned : AllIn (owned_tokens w.session) w.tokens

pub without-All :
    (P Q : ℕ → Type 0) (i : ℕ) (ts : List ℕ)
    → ((t : ℕ) → P t → (t == i) ≡ false → Q t)
    → All P ts
    → All Q (without i ts)
without-All P Q i [] f h = tt
without-All P Q i (t ∷ ts) f h = elim (Bool-cases (t == i)) [
  | inl e ↦ rw e (without-All P Q i ts f h.1)
  | inr e ↦ rw e (f t h.0 e, without-All P Q i ts f h.1)
]

member-cons :
    (t k : ℕ) (ks : List ℕ) → member t (k ∷ ks) ≡ true → (t == k) ≡ false → member t ks ≡ true
member-cons t k ks h e = rw e at h

member-middle :
    (t k : ℕ) (is ks : List ℕ)
    → member t (is ++ (k ∷ ks)) ≡ true
    → (t == k) ≡ false
    → member t (is ++ ks) ≡ true
member-middle t k [] ks h e = member-cons t k ks h e
member-middle t k (i ∷ is) ks h e = elim (Bool-cases (t == i)) [
  | inl same ↦ rw same refl
  | inr other ↦
      let later : member t (is ++ (k ∷ ks)) ≡ true = rw other at h in
      rw other (member-middle t k is ks later e)
]

-- What is left after some numbers are taken out lies among the others.
pub without_all-AllIn : (is ks ts : List ℕ) → AllIn (is ++ ks) ts → AllIn ks (without_all is ts)
without_all-AllIn [] ks ts h = h
without_all-AllIn (i ∷ is) ks ts h =
    without_all-AllIn is ks (without i ts)
      (without-All _ _ i ts (λ t p e. member-cons t i (is ++ ks) p e) h)

without_all-AllIn_left : (is ks ts : List ℕ) → AllIn (is ++ ks) ts → AllIn is (without_all ks ts)
without_all-AllIn_left is [] ts h = rw (append-nil is) at h
without_all-AllIn_left is (k ∷ ks) ts h =
    without_all-AllIn_left is ks (without k ts)
      (without-All _ _ k ts (λ t p e. member-middle t k is ks p e) h)

pub none_left : (ts : List ℕ) → AllIn [] ts → ts ≡ []
none_left [] h = refl
none_left (t ∷ ts) h = cc (h.0)

pub without_all-empty : (is ts : List ℕ) → AllIn is ts → without_all is ts ≡ []
without_all-empty is ts h = none_left _ (without_all-AllIn is [] ts (rw (append-nil is) h))

-- The end of relays, then of a session's control.
end_relays-fields :
    (rs : List (String × HostRelayRuntime)) (w : World)
    → ((end_relays rs w).tasks ≡ without_all (relay_ids (λ r. r.runtime) rs) w.tasks)
      × ((end_relays rs w).tokens ≡ without_all (relay_ids (λ r. r.cancel) rs) w.tokens)
      × ((end_relays rs w).session ≡ w.session)
      × ((end_relays rs w).effects ≡ w.effects)
end_relays-fields [] w = (refl, refl, refl, refl)
end_relays-fields ((id, r) ∷ rs) w = end_relays-fields rs (end_relay (some r) w)

pub end_control-fields :
    (c : SessionControl) (w : World)
    → ((end_control c w).tasks ≡ without_all (control_tasks c) w.tasks)
      × ((end_control c w).tokens ≡ without_all (control_tokens c) w.tokens)
      × ((end_control c w).session ≡ w.session)
      × ((end_control c w).effects ≡ w.effects ++ closings (live_of c))
unfolding end_control
end_control-fields (prepared_client c) w = (refl, refl, refl, sym (append-nil w.effects))
end_control-fields (client a) w = (refl, refl, refl, sym (append-nil w.effects))
end_control-fields (host h) w = elim (Option-cases h.e4mc_runtime) [
  | inl e ↦ rw e (end_relays-fields h.relay_sessions _)
  | inr ((token, task), e) ↦ rw e (end_relays-fields h.relay_sessions _)
]

-- No session, and nothing that still has a handle.
pub record IsIdle (w : World) : Type 0 where
  pub no_session : w.session ≡ none
  pub no_tasks : w.tasks ≡ []
  pub no_tokens : w.tokens ≡ []

pub end_session-IsIdle :
    (s : Option SessionRuntime) (w : World)
    → w.session ≡ s
    → AllIn (owned_tasks s) w.tasks
    → AllIn (owned_tokens s) w.tokens
    → IsIdle (end_session s w)
unfolding end_session
end_session-IsIdle none w e h k = record {
  no_session = e;
  no_tasks = none_left w.tasks h;
  no_tokens = none_left w.tokens k;
}
end_session-IsIdle (some r) w e h k =
    let (tasks_left, tokens_left, same_session, closed) =
      end_control-fields r.control (cancel_token r.cancel (record w { session = none })) in
    record {
      no_session = same_session;
      no_tasks =
          ap (without_all r.tasks) tasks_left
          ∙ without_all-empty r.tasks _
              (without_all-AllIn_left r.tasks (control_tasks r.control) w.tasks h);
      no_tokens = tokens_left ∙ without_all-empty (r.cancel ∷ control_tokens r.control) w.tokens k;
    }

pub reset_session-IsIdle : (w : World) → IsOwned w → IsIdle (reset_session w)
unfolding reset_session
reset_session-IsIdle w h =
    let idle = end_session-IsIdle w.session w refl h.tasks_owned h.tokens_owned in
    record { no_session = idle.no_session; no_tasks = idle.no_tasks; no_tokens = idle.no_tokens }

pub IsIdle-IsOwned : {w : World} → IsIdle w → IsOwned w
IsIdle-IsOwned {w} h = record { tasks_owned = rw h.no_tasks tt; tokens_owned = rw h.no_tokens tt }
