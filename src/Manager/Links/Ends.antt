-- ===== src/Manager/Links/Ends.antt =====
-- src/manager.rs: the state of a client while its direct connection is open, and once it has ended.
use p2p_core.Base.{
  Bool, Bool-cases, List, String, [], any, false, if◌then◌else◌, inl, inr, refl, true, ◌∙◌, ◌∷◌,
  ◌≡◌,
}
use p2p_core.Models.{ConnectionState, NetworkStatus}
use p2p_core.Manager.{mark_fatal, mutate_status, push_log, recount, set_nonfatal, update_peer_ping}
use p2p_core.Manager.Sessions.{done, failed, Result}
use p2p_core.Manager.Links.{
  LinkEvent, Proxy, ProxyEvent, cancelled, client_closed, connection_closed, incoming, link_step,
  listener_failed, proxied, proxy_event, proxy_step, proxy_error, listener_error, rtt_read,
  run_link,
}

-- The end of the connection without a cancelled token.
abbrev pub is_end : LinkEvent → Bool
is_end (rtt_read ping) = false
is_end (proxy_event e) = false
is_end (connection_closed true e) = false
is_end (connection_closed false e) = true

proxy_error-state : (r : Result (Unit {0})) (s : NetworkStatus) → (proxy_error r s).state ≡ s.state
unfolding set_nonfatal push_log mutate_status recount
proxy_error-state (done ended) s = refl
proxy_error-state (failed e) s = refl

listener_error-state :
    (c : Bool) (e : String) (s : NetworkStatus) → (listener_error c e s).state ≡ s.state
unfolding set_nonfatal push_log mutate_status recount
listener_error-state true e s = refl
listener_error-state false e s = refl

proxy_step-state : (e : ProxyEvent) (p : Proxy) → (proxy_step e p).status.state ≡ p.status.state
unfolding proxy_step
proxy_step-state incoming p = elim (Bool-cases p.accepting) [
  | inl e ↦ rw e refl
  | inr e ↦ rw e refl
]
proxy_step-state (proxied r) p = proxy_error-state r p.status
proxy_step-state (listener_failed c m) p = elim (Bool-cases p.accepting) [
  | inl e ↦ rw e (listener_error-state c m p.status)
  | inr e ↦ rw e refl
]
proxy_step-state cancelled p = refl

link_step-state :
    (id : String) (e : LinkEvent) (p : Proxy)
    → (link_step id e p).status.state ≡ (if is_end e then ConnectionState.error else p.status.state)
unfolding link_step client_closed update_peer_ping mutate_status recount mark_fatal
link_step-state id (rtt_read ping) p = refl
link_step-state id (proxy_event e) p = proxy_step-state e p
link_step-state id (connection_closed true e) p = refl
link_step-state id (connection_closed false e) p = refl

-- An open connection leaves the state as it was, and its end without a cancelled token leaves an
-- error, whatever the pings and the proxy do before or after.
pub run_link-state :
    (id : String) (es : List LinkEvent) (p : Proxy)
    → (run_link id es p).status.state
      ≡ (if any is_end es then ConnectionState.error else p.status.state)
unfolding run_link
run_link-state id [] p = refl
run_link-state id (e ∷ es) p =
    let later = run_link-state id es (link_step id e p) in
    let now = link_step-state id e p in
    elim (Bool-cases (is_end e)) [
      | inl k ↦ elim (Bool-cases (any is_end es)) [
        | inl m ↦ rw k (rw m at later)
        | inr m ↦ rw k ((rw m at later) ∙ (rw k at now))
      ]
      | inr k ↦ elim (Bool-cases (any is_end es)) [
        | inl m ↦ rw (k, m) (rw m at later)
        | inr m ↦ rw (k, m) ((rw m at later) ∙ (rw k at now))
      ]
    ]
