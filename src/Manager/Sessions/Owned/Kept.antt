-- ===== src/Manager/Sessions/Owned/Kept.antt =====
-- src/manager.rs: each command keeps the tasks and the tokens of the session in its own hands.
use p2p_core.Base.{
  Option, String, [], false, none, ◌∷◌, ◌≡◌, Bool, Bool-cases, arith, inl, inr, str_eq, true, ◌==◌,
  some, Option-cases, append-nil, refl, ◌⊎◌,
}
use p2p_core.Net.{SocketAddr}
use p2p_core.Text.{trim}
use p2p_core.Models.{NetworkStatus, SessionMode}
use p2p_core.Manager.Sessions.{
  done, failed, SessionControl, Result, World, host, prepared_client, client, Result-cases,
  reset_session, PreparedClientControl, SessionRuntime, overwrite_status,
}
use p2p_core.Manager.Sessions.Joining.{
  ClientNet, open_client, open_prepared, prepare_client, prepare_client_control,
  start_client_connect,
}
use p2p_core.Manager.Sessions.Hosting.{
  HostArgs, HostNet, start_hosting, stop_hosting, e4mc_of, open_host, or_fatal, spawn_e4mc,
  start_hosting_inner,
}
use p2p_core.Manager.Sessions.Commands.{
  punch_control, punched_or, commit_control, put_back, read_address, commit_session, punch_session,
}
use p2p_core.Manager.Sessions.Owned.{
  IsIdle, IsOwned, reset_session-IsIdle, AllIn, control_tasks, without_all-AllIn, without_all-empty,
}

-- A host that starts e4mc gets its socket and its endpoint.
abbrev pub StartsE4mc : HostArgs → HostNet → Type 0
StartsE4mc a net =
    (a.enable_e4mc ≡ false)
    ⊎ ((addr : SocketAddr) × (net.bound ≡ done addr) × (net.endpoint ≡ done tt))

open_host-IsOwned :
    (a : HostArgs) (net : HostNet) (b : Bool) (w : World) (s : NetworkStatus)
    → IsIdle w
    → IsOwned (open_host a net (e4mc_of b w) (overwrite_status s (spawn_e4mc b w)))
unfolding open_host
open_host-IsOwned a net false w s idle = record {
  tasks_owned = rw idle.no_tasks (ground arith);
  tokens_owned = rw idle.no_tokens (ground arith);
}
open_host-IsOwned a net true w s idle = record {
  tasks_owned = rw idle.no_tasks (ground arith);
  tokens_owned = rw idle.no_tokens (ground arith);
}

IsIdle-IsOwned_status : (w : World) (s : NetworkStatus) → IsIdle w → IsOwned (overwrite_status s w)
IsIdle-IsOwned_status w s idle = record {
  tasks_owned = rw idle.no_tasks tt;
  tokens_owned = rw idle.no_tokens tt;
}

start_hosting_inner-IsOwned :
    (a : HostArgs) (net : HostNet) (w : World)
    → IsIdle w
    → StartsE4mc a net
    → IsOwned (start_hosting_inner a net w).1
unfolding start_hosting_inner
start_hosting_inner-IsOwned a net w idle (inl off) = elim (Result-cases net.bound) [
  | inr (e, bound) ↦ rw (off, bound) (IsIdle-IsOwned_status w _ idle)
  | inl (addr, bound) ↦ elim (Result-cases net.endpoint) [
    | inr (e, made) ↦ rw (off, bound, made) (IsIdle-IsOwned_status w _ idle)
    | inl (ready, made) ↦ rw (off, bound, made) (open_host-IsOwned a net false w _ idle)
  ]
]
start_hosting_inner-IsOwned a net w idle (inr (addr, bound, made)) =
    rw (bound, made) (open_host-IsOwned a net a.enable_e4mc w _ idle)

or_fatal-IsOwned :
    (mode : SessionMode) (r : Result String × World) → IsOwned r.1 → IsOwned (or_fatal mode r).1
or_fatal-IsOwned mode (done s, w) h = h
or_fatal-IsOwned mode (failed e, w) h = record {
  tasks_owned = h.tasks_owned;
  tokens_owned = h.tokens_owned;
}

pub start_hosting-IsOwned :
    (a : HostArgs) (net : HostNet) (w : World)
    → IsOwned w
    → StartsE4mc a net
    → IsOwned (start_hosting a net w).1
unfolding start_hosting
start_hosting-IsOwned a net w h keeps =
    let named : HostArgs = record a { room_name = trim a.room_name } in
    elim (Bool-cases (str_eq named.room_name "")) [
      | inl e ↦ rw e h
      | inr e ↦ elim (Bool-cases (a.local_port == 0)) [
        | inl z ↦ rw (e, z) h
        | inr z ↦
            rw (e, z)
              (or_fatal-IsOwned SessionMode.host _ (
                start_hosting_inner-IsOwned named net (reset_session w) (reset_session-IsIdle w h)
                  keeps))
      ]
    ]

pub stop_hosting-IsIdle : (w : World) → IsOwned w → IsIdle (stop_hosting w)
unfolding stop_hosting
stop_hosting-IsIdle w h =
    let idle = reset_session-IsIdle w h in
    record { no_session = idle.no_session; no_tasks = idle.no_tasks; no_tokens = idle.no_tokens }

opened_client-IsOwned :
    (w : World) (a : SocketAddr) (s : NetworkStatus)
    → IsIdle w
    → IsOwned (open_client a (overwrite_status s w))
unfolding open_client
opened_client-IsOwned w a s idle = record {
  tasks_owned = rw idle.no_tasks (ground arith);
  tokens_owned = rw idle.no_tokens (ground arith);
}

opened_prepared-IsOwned :
    (w : World) (c : PreparedClientControl) (s : NetworkStatus)
    → IsIdle w
    → IsOwned (open_prepared c (overwrite_status s w))
unfolding open_prepared
opened_prepared-IsOwned w c s idle = record {
  tasks_owned = rw idle.no_tasks tt;
  tokens_owned = rw idle.no_tokens (ground arith);
}

pub start_client_connect-IsOwned :
    (net : ClientNet) (c : PreparedClientControl) (w : World)
    → IsIdle w
    → IsOwned (start_client_connect net c w).1
unfolding start_client_connect prepare_client_control
start_client_connect-IsOwned net c w idle = elim (Result-cases net.bound) [
  | inr (e, bound) ↦ rw bound (IsIdle-IsOwned_status w _ idle)
  | inl (addr, bound) ↦ elim (Result-cases net.endpoint) [
    | inr (e, made) ↦ rw (bound, made) (IsIdle-IsOwned_status w _ idle)
    | inl (ready, made) ↦ rw (bound, made) (opened_client-IsOwned w c.peer_addr _ idle)
  ]
]

pub prepare_client-IsOwned :
    (net : ClientNet) (c : PreparedClientControl) (w : World)
    → IsOwned w
    → IsOwned (prepare_client net c w).1
unfolding prepare_client prepare_client_control
prepare_client-IsOwned net c w h =
    let idle = reset_session-IsIdle w h in
    elim (Result-cases net.bound) [
      | inr (e, bound) ↦ rw bound (IsIdle-IsOwned_status (reset_session w) _ idle)
      | inl (addr, bound) ↦ elim (Result-cases net.endpoint) [
        | inr (e, made) ↦ rw (bound, made) (IsIdle-IsOwned_status (reset_session w) _ idle)
        | inl (ready, made) ↦ rw (bound, made) (opened_prepared-IsOwned (reset_session w) c _ idle)
      ]
    ]

punched-IsOwned :
    (r : SessionRuntime) (c : SessionControl) (a : SocketAddr) (peer_id relay : Option String)
    (w : World) (other : Result (Unit {0}) × World)
    → r.control ≡ c
    → w.session ≡ some r
    → IsOwned w
    → IsOwned other.1
    → IsOwned (punched_or (punch_control a peer_id relay r c w) other).1
punched-IsOwned r (prepared_client c) a peer_id relay w other e s h k = k
punched-IsOwned r (client addr) a peer_id relay w other e s h k = k
punched-IsOwned r (host c) a peer_id relay w other e s h k = record {
  tasks_owned = rw (s, e) at h.tasks_owned;
  tokens_owned = rw (s, e) at h.tokens_owned;
}

put_back-IsOwned :
    (r : SessionRuntime) (w : World) → w.session ≡ some r → IsOwned w → IsOwned (put_back r w).1
unfolding put_back
put_back-IsOwned r w s h = record {
  tasks_owned = without_all-AllIn r.tasks (control_tasks r.control) w.tasks (rw s at h.tasks_owned);
  tokens_owned = rw s at h.tokens_owned;
}

commit_control-IsOwned :
    (r : SessionRuntime) (c : SessionControl) (w : World)
    → r.control ≡ c
    → w.session ≡ some r
    → IsOwned w
    → IsOwned (commit_control r c w).1
commit_control-IsOwned r (host c) w e s h = put_back-IsOwned r w s h
commit_control-IsOwned r (client a) w e s h = put_back-IsOwned r w s h
commit_control-IsOwned r (prepared_client c) w e s h =
    let old : AllIn r.tasks w.tasks = rw (s, e, append-nil r.tasks) at h.tasks_owned in
    let tokens : AllIn (r.cancel ∷ []) w.tokens = rw (s, e) at h.tokens_owned in
    record {
      tasks_owned = rw (without_all-empty r.tasks w.tasks old) (ground arith);
      tokens_owned = tokens;
    }

pub commit_session-IsOwned :
    (o : Option SessionRuntime) (w : World)
    → w.session ≡ o
    → IsOwned w
    → IsOwned (commit_session o w).1
commit_session-IsOwned none w s h = h
commit_session-IsOwned (some r) w s h = commit_control-IsOwned r r.control w refl s h

pub punch_session-IsOwned :
    (o : Option SessionRuntime) (a : SocketAddr) (peer_id relay : Option String) (w : World)
    (other : Result (Unit {0}) × World)
    → w.session ≡ o
    → IsOwned w
    → IsOwned other.1
    → IsOwned (punched_or (punch_session a peer_id relay o w) other).1
punch_session-IsOwned none a peer_id relay w other s h k = k
punch_session-IsOwned (some r) a peer_id relay w other s h k =
    punched-IsOwned r r.control a peer_id relay w other refl s h k

pub read_address-IsOwned :
    (parse_addr : String → Option SocketAddr) (text : String)
    (go : SocketAddr → World → Result (Unit {0}) × World) (w : World)
    → ((a : SocketAddr) → IsOwned (go a w).1)
    → IsOwned w
    → IsOwned (read_address parse_addr text go w).1
read_address-IsOwned parse_addr text go w goes h = elim (Bool-cases (str_eq (trim text) "")) [
  | inl e ↦ rw e h
  | inr e ↦ elim (Option-cases (parse_addr (trim text))) [
    | inl bad ↦ rw (e, bad) h
    | inr (a, good) ↦ rw (e, good) (goes a)
  ]
]
