-- ===== src/Manager/Host/Races.antt =====
-- What one step of a host does to another's: a direct connection and a relay, and the state of the
-- host where a peer is set or leaves.
use p2p_core.Base.{
  text_key, ℕ, String, Bool, List, Option-cases, [], any, arith, count_if, eq_iff, inl, inr, lookup,
  lookup-remove, none, refl, remove, some, true, ◌++◌, ◌↔◌, ◌∙◌, ◌∷◌, ◌≡◌, ◌≤◌, Bool-cases, ap,
  false, insert, lookup-insert, str_eq, ◌≢◌,
}
use p2p_core.Net.{SocketAddr, show_addr}
use p2p_core.Models.{SessionMode, ConnectionState, PeerInfo, NetworkStatus}
use p2p_core.Manager.{
  mark_peer_disconnected, mutate_status, recount, upsert_peer, upsert_peers, change_peers,
}
use p2p_core.Manager.Peers.{find_peer, find_peer-change_peers}
use p2p_core.Manager.Host.{
  HostSession, Connection, accept_connection, cancel_found, cancel_host_relay_for_peer,
  cancel_relay, or_address,
}

cancelled-relays :
    (id : String) (h : HostSession)
    → lookup id (cancel_host_relay_for_peer id h).relay_sessions ≡ none
unfolding cancel_host_relay_for_peer cancel_found
cancelled-relays id h = elim (Option-cases (lookup id h.relay_sessions)) [
  | inl e ↦ rw e e
  | inr (s, e) ↦ rw e (lookup-remove id id h.relay_sessions ∙ ground (arith, eq_iff id id))
]

cancelled-effects :
    (id : String) (h : HostSession) (session_id : String)
    → lookup id h.relay_sessions ≡ some session_id
    → (cancel_host_relay_for_peer id h).effects ≡ h.effects ++ (cancel_relay session_id ∷ [])
unfolding cancel_host_relay_for_peer cancel_found
cancelled-effects id h session_id e = rw e refl

cancel-live :
    (id : String) (h : HostSession)
    → (cancel_host_relay_for_peer id h).live_connections ≡ h.live_connections
unfolding cancel_host_relay_for_peer cancel_found
cancel-live id h = elim (Option-cases (lookup id h.relay_sessions)) [
  | inl e ↦ rw e refl
  | inr (s, e) ↦ rw e refl
]

-- When a peer's direct connection is accepted, its relay session is cancelled, once and by its
-- name, and no relay session of that peer is left; its connection is the one in the map.
pub accept_connection-cancels_relay :
    (remote : SocketAddr) (conn : Connection) (rtt : ℕ) (id session_id : String) (h : HostSession)
    → lookup (show_addr remote) h.expected_peers ≡ some id
    → lookup id h.relay_sessions ≡ some session_id
    → let k = accept_connection remote conn rtt h in
      (lookup id k.relay_sessions ≡ none)
      × (k.effects ≡ h.effects ++ (cancel_relay session_id ∷ []))
      × (lookup id k.live_connections ≡ some conn)
unfolding accept_connection
accept_connection-cancels_relay remote conn rtt id session_id h expected armed =
    let live : List (String × Connection) = insert id conn h.live_connections in
    let known : HostSession = record h {
      expected_peers = remove (show_addr remote) h.expected_peers;
      live_connections = live;
    } in
    let e : or_address (lookup (show_addr remote) h.expected_peers) remote ≡ id =
      rw expected refl in
    let inserted : lookup id live ≡ some conn =
      lookup-insert id id conn h.live_connections ∙ ground (arith, eq_iff id id) in
    rw e (
      cancelled-relays id known,
      cancelled-effects id known session_id armed,
      ap (lookup id) (cancel-live id known) ∙ inserted,
    )

any_count : (f : PeerInfo → Bool) (ps : List PeerInfo) → (any f ps ≡ true) ↔ (1 ≤ count_if f ps)
any_count f [] = ground arith
any_count f (p ∷ ps) = ground (arith, any_count f ps)

-- After a peer of a host is set, the host's state is Connected exactly if the count of the
-- connected peers is not 0, and Hosting otherwise.
pub upsert_peer-host_state :
    (new : PeerInfo) (s : NetworkStatus)
    → s.mode ≡ SessionMode.host
    → let t = upsert_peer new s in
      ((1 ≤ t.peer_count) → t.state ≡ ConnectionState.connected)
      × ((t.peer_count ≡ 0) → t.state ≡ ConnectionState.hosting)
unfolding upsert_peer mutate_status recount
upsert_peer-host_state new s mode =
    let ps = upsert_peers new s.peers in
    let c = any_count (λ p. p.connected) ps in
    rw mode (elim (Bool-cases (any (λ p. p.connected) ps)) [
      | inl some_up ↦ rw some_up (λ h. refl, λ h. absurd (omega (arith, c.0 some_up)))
      | inr none_up ↦ rw none_up (λ h. cc (c.1 h, none_up), λ h. refl)
    ])

find_peer-count :
    (q : String) (p : PeerInfo) (ps : List PeerInfo)
    → find_peer q ps ≡ some p
    → p.connected ≡ true
    → 1 ≤ count_if (λ r. r.connected) ps
find_peer-count q p [] found up = cc found
find_peer-count q p (r ∷ ps) found up = elim (Bool-cases (str_eq r.peer_id q)) [
  | inl e ↦
      let is_some : some r ≡ some p = rw e at found in
      let is : r ≡ p = cc is_some in
      let up_r : r.connected ≡ true = ap (λ x. x.connected) is ∙ up in rw up_r (omega arith)
  | inr e ↦ let rest = find_peer-count q p ps (rw e at found) up in ground (arith, rest)
]

-- When a peer of a host leaves while another is connected, the state of the host is Hosting, though
-- the count of the connected peers is not 0: setting a peer would say Connected.
pub mark_peer_disconnected-understates :
    (id q : String) (p : PeerInfo) (s : NetworkStatus)
    → s.mode ≡ SessionMode.host
    → id ≢ q
    → find_peer q s.peers ≡ some p
    → p.connected ≡ true
    → let t = mark_peer_disconnected id s in
      (t.state ≡ ConnectionState.hosting) × (1 ≤ t.peer_count)
unfolding mark_peer_disconnected mutate_status recount
mark_peer_disconnected-understates id q p s mode ne found up =
    let f : PeerInfo → PeerInfo = λ r. record r { connected = false } in
    let other : str_eq id q ≡ false = ground (arith, eq_iff id q) in
    let kept : find_peer q (change_peers id f s.peers) ≡ some p =
      find_peer-change_peers id q f s.peers (λ r. refl) ∙ rw other found in
    rw mode (refl, find_peer-count q p (change_peers id f s.peers) kept up)
