-- ===== src/Manager/Host/Backed.antt =====
-- Each step of a host's tasks keeps every connected peer backed by a connection.
use p2p_core.Base.{
  text_key, ℕ, String, Bool-cases, List, Option, contains_key, false, inl, inr, ok, refl, remove,
  true, ◌≡◌, Bool, Option-cases, arith, contains_key-insert, eq_iff, insert, lookup, none, some,
  ◌∙◌, ap, ok-injective,
}
use p2p_core.Text.{◌⧺◌}
use mathlib.Core.Path.{subst}
use p2p_core.Net.{SocketAddr, show_addr}
use p2p_core.Models.{PeerInfo, NetworkStatus}
use p2p_core.Manager.{
  change_peers, mark_peer_disconnected, mutate_status, push_log, recount, set_nonfatal,
  update_peer_ping, upsert_peer, upsert_peers, is_host,
}
use p2p_core.Manager.Peers.{
  Distinct, names, names-change_peers, upsert_peer-Distinct, upsert_peer-peers,
  upsert_peers-Distinct,
}
use p2p_core.Manager.Host.{
  Connection, HostSession, accept_connection, cancel_found, cancel_host_relay_for_peer,
  connection_ended, kick_peer, on_status, punch_from_host, punch_timeout, replace_relay,
  start_host_relay, skip_relay, punching, direct_peer, display_peer, or_address,
}
use p2p_core.Manager.Host.Changes.{
  Backed, IsBacked, push_log-peers, Backed-upsert_peers, Backed-disconnect, expire-IsBacked,
  All-change_peers,
}

upsert_peer-IsBacked :
    (new : PeerInfo) (live : List (String × Connection)) (h : HostSession)
    → ((id : String) → contains_key id h.live_connections ≡ true → contains_key id live ≡ true)
    → Backed live new
    → IsBacked h
    → IsBacked (record h { live_connections = live; status = upsert_peer new h.status })
upsert_peer-IsBacked new live h grows backed b = (
  upsert_peer-Distinct new h.status b.0,
  rw (upsert_peer-peers new h.status)
      (Backed-upsert_peers h.live_connections live new h.status.peers grows backed b.1),
)

mark_peer_disconnected-IsBacked :
    (id : String) (h : HostSession)
    → IsBacked h
    → IsBacked (record h {
      live_connections = remove id h.live_connections;
      status = mark_peer_disconnected id h.status;
    })
unfolding mark_peer_disconnected mutate_status recount
mark_peer_disconnected-IsBacked id h b =
    let names_kept =
      names-change_peers id (λ p. record p { connected = false }) h.status.peers (λ p. refl) in
    let d : Distinct
        (names (change_peers id (λ p. record p { connected = false }) h.status.peers)) =
      rw names_kept b.0 in
    let backed = Backed-disconnect id h.live_connections h.status.peers b.0 b.1 in
    elim (Bool-cases (is_host h.status.mode)) [
      | inl e ↦ rw e (d, backed)
      | inr e ↦ rw e (d, backed)
    ]

skip_relay-peers :
    (peer : String) (o : Option String) (forced : Bool) (s : NetworkStatus)
    → (skip_relay peer o forced s).peers ≡ s.peers
unfolding push_log mutate_status recount
skip_relay-peers peer none forced s = refl
skip_relay-peers peer (some id) true s = refl
skip_relay-peers peer (some id) false s = refl

punching-IsBacked :
    (peer : String) (h : HostSession)
    → IsBacked h
    → IsBacked (record h { status = punching peer h.status })
unfolding mutate_status recount
punching-IsBacked peer h b = b

pub punch_from_host-IsBacked :
    (a : SocketAddr) (announced relay : Option String) (h : HostSession)
    → IsBacked h
    → IsBacked (punch_from_host a announced relay h)
unfolding punch_from_host
punch_from_host-IsBacked a announced relay h b =
    let peer = display_peer a announced in
    let new = direct_peer peer a false none in
    let set =
      upsert_peer-IsBacked new h.live_connections (record h { status = punching peer h.status })
        (λ id x. x) (λ up. cc up) (punching-IsBacked peer h b) in
    let logged =
      push_log ("Host punch -> " ⧺ peer ⧺ " (" ⧺ show_addr a ⧺ ")")
        (upsert_peer new (punching peer h.status)) in
    let same : (skip_relay peer relay h.force_direct logged).peers
        ≡ (upsert_peer new (punching peer h.status)).peers =
      skip_relay-peers peer relay h.force_direct logged ∙ push_log-peers _ _ in
    rw same set

pub punch_timeout-IsBacked :
    (id : String) (h : HostSession) → IsBacked h → IsBacked (punch_timeout id h)
unfolding punch_timeout
punch_timeout-IsBacked id h b = expire-IsBacked id h b

cancel-same :
    (id : String) (h : HostSession)
    → ((cancel_host_relay_for_peer id h).status.peers ≡ h.status.peers)
      × ((cancel_host_relay_for_peer id h).live_connections ≡ h.live_connections)
unfolding cancel_host_relay_for_peer cancel_found push_log mutate_status recount
cancel-same id h = elim (Option-cases (lookup id h.relay_sessions)) [
  | inl e ↦ rw e (refl, refl)
  | inr (s, e) ↦ rw e (refl, refl)
]

pub start_host_relay-IsBacked :
    (id session_id : String) (started : Option String) (h : HostSession)
    → IsBacked h
    → IsBacked (start_host_relay id session_id started h)
unfolding start_host_relay replace_relay push_log set_nonfatal mutate_status recount
start_host_relay-IsBacked id session_id none h b =
    elim (Option-cases (lookup id h.relay_sessions)) [ inl e ↦ rw e b | inr (s, e) ↦ rw e b ]
start_host_relay-IsBacked id session_id (some error) h b = b

contains_key-grows :
    {V : Type 0} (a b : String) (v : V) (m : List (String × V))
    → contains_key b m ≡ true
    → contains_key b (insert a v m) ≡ true
contains_key-grows a b v m h = ground (arith, contains_key-insert a b v m)

contains_key-inserted :
    {V : Type 0} (a : String) (v : V) (m : List (String × V)) → contains_key a (insert a v m) ≡ true
contains_key-inserted a v m = ground (arith, contains_key-insert a a v m, eq_iff a a)

pub accept_connection-IsBacked :
    (remote : SocketAddr) (conn : Connection) (rtt : ℕ) (h : HostSession)
    → IsBacked h
    → IsBacked (accept_connection remote conn rtt h)
unfolding accept_connection
accept_connection-IsBacked remote conn rtt h b =
    let id = or_address (lookup (show_addr remote) h.expected_peers) remote in
    let live = insert id conn h.live_connections in
    let known : HostSession = record h {
      expected_peers = remove (show_addr remote) h.expected_peers;
      live_connections = live;
    } in
    let new = direct_peer id remote true (some rtt) in
    let same = cancel-same id known in
    let d = upsert_peers-Distinct new h.status.peers b.0 in
    let backed =
      Backed-upsert_peers h.live_connections live new h.status.peers
        (λ k x. contains_key-grows id k conn h.live_connections x)
        (λ up. contains_key-inserted id conn h.live_connections) b.1 in
    let cancelled = cancel_host_relay_for_peer id known in
    let peers_now =
      push_log-peers ("Host принял peer " ⧺ id ⧺ " (" ⧺ show_addr remote ⧺ ")")
        (upsert_peer new cancelled.status)
      ∙ upsert_peer-peers new cancelled.status
      ∙ ap (upsert_peers new) same.0 in
    rw (peers_now, same.1) (d, backed)

pub connection_ended-IsBacked :
    (id : String) (h : HostSession) → IsBacked h → IsBacked (connection_ended id h)
unfolding connection_ended
connection_ended-IsBacked id h b = mark_peer_disconnected-IsBacked id h b

pub kick_peer-IsBacked :
    (id : String) (h k : HostSession) → kick_peer id h ≡ ok k → IsBacked h → IsBacked k
unfolding kick_peer push_log mutate_status recount
kick_peer-IsBacked id h k e b = elim (Option-cases (lookup id h.live_connections)) [
  | inl missing ↦ cc (missing, e)
  | inr (c, found) ↦
      let after = mark_peer_disconnected-IsBacked id h b in
      let done = rw found at e in subst IsBacked (ok-injective done) after
]

pub update_peer_ping-IsBacked :
    (id : String) (ping : ℕ) (h : HostSession)
    → IsBacked h
    → IsBacked (on_status (update_peer_ping id ping) h)
unfolding update_peer_ping mutate_status recount
update_peer_ping-IsBacked id ping h b =
    let f : PeerInfo → PeerInfo = λ p. record p { ping_ms = some ping } in
    let kept = names-change_peers id f h.status.peers (λ p. refl) in
    let d : Distinct (names (change_peers id f h.status.peers)) = rw kept b.0 in
    (
      d,
      All-change_peers (Backed h.live_connections) (Backed h.live_connections) id f h.status.peers
          (λ p x. x) (λ p same x. x) b.1,
    )
