-- ===== src/Manager/Host/Changes.antt =====
-- The changes to the peers, each of which keeps every connected peer backed by a connection.
use p2p_core.Base.{
  text_key, String, All, All-append, All-map, Bool-cases, List, [], arith, contains_key,
  contains_key-remove, eq_iff, false, inl, inr, not, refl, remove, str_eq, sym, true, ◌&&◌, ◌∷◌,
  ◌≡◌, ◌≢◌,
}
use mathlib.Core.Path.{subst}
use p2p_core.Models.{PeerInfo, NetworkStatus}
use p2p_core.Manager.{
  change_peers, has_peer, mutate_status, push_log, recount, renewed, upsert_peers,
}
use p2p_core.Manager.Peers.{Distinct, named, names}
use p2p_core.Manager.Host.{Connection, HostSession, remove_waiting, has_waiting, expire}

-- A connected peer has a connection in the map.
abbrev pub Backed : List (String × Connection) → PeerInfo → Type 0
Backed live p = p.connected ≡ true → contains_key p.peer_id live ≡ true

abbrev pub IsBacked : HostSession → Type 0
IsBacked h = Distinct (names h.status.peers) × All (Backed h.live_connections) h.status.peers

pub push_log-peers : (e : String) (s : NetworkStatus) → (push_log e s).peers ≡ s.peers
unfolding push_log mutate_status recount
push_log-peers e s = refl

pub All-change_peers :
    (P Q : PeerInfo → Type 0) (id : String) (f : PeerInfo → PeerInfo) (ps : List PeerInfo)
    → ((p : PeerInfo) → P p → Q p)
    → ((p : PeerInfo) → p.peer_id ≡ id → P p → Q (f p))
    → All P ps
    → All Q (change_peers id f ps)
unfolding change_peers
All-change_peers P Q id f [] keep change h = tt
All-change_peers P Q id f (p ∷ ps) keep change h = elim (Bool-cases (str_eq p.peer_id id)) [
  | inl e ↦ rw e (change p ((eq_iff p.peer_id id).0 e) h.0, All-map P Q keep ps h.1)
  | inr e ↦ rw e (keep p h.0, All-change_peers P Q id f ps keep change h.1)
]

pub Backed-upsert_peers :
    (live more : List (String × Connection)) (new : PeerInfo) (ps : List PeerInfo)
    → ((id : String) → contains_key id live ≡ true → contains_key id more ≡ true)
    → Backed more new
    → All (Backed live) ps
    → All (Backed more) (upsert_peers new ps)
unfolding upsert_peers
Backed-upsert_peers live more new ps grows backed h = elim (Bool-cases (has_peer new.peer_id ps)) [
  | inl known ↦ rw known (
      All-change_peers (Backed live) (Backed more) new.peer_id (renewed new) ps
        (λ p b up. grows p.peer_id (b up))
        (λ p same b up. subst (λ n. contains_key n more ≡ true) (sym same) (backed up)) h)
  | inr unknown ↦ rw unknown (
      All-append (Backed more) ps (new ∷ [])
        (All-map (Backed live) (Backed more) (λ p b up. grows p.peer_id (b up)) ps h) (backed, tt))
]

-- A change to another key.
contains_key-remove_other :
    {V : Type 0} (a b : String) (m : List (String × V))
    → a ≢ b
    → contains_key b m ≡ true
    → contains_key b (remove a m) ≡ true
contains_key-remove_other a b m ne h = ground (arith, contains_key-remove a b m, eq_iff a b)

Backed-remove :
    (id : String) (live : List (String × Connection)) (ps : List PeerInfo)
    → named id (names ps) ≡ false
    → All (Backed live) ps
    → All (Backed (remove id live)) ps
Backed-remove id live [] out h = tt
Backed-remove id live (p ∷ ps) out h = elim (Bool-cases (str_eq p.peer_id id)) [
  | inl e ↦ let no : true ≡ false = rw e at out in cc no
  | inr e ↦
      let rest : named id (names ps) ≡ false = rw e at out in
      let ne : id ≢ p.peer_id = λ same. ground (arith, eq_iff p.peer_id id) in
      (
        λ up. contains_key-remove_other id p.peer_id live ne (h.0 up),
        Backed-remove id live ps rest h.1,
      )
]

pub Backed-disconnect :
    (id : String) (live : List (String × Connection)) (ps : List PeerInfo)
    → Distinct (names ps)
    → All (Backed live) ps
    → All (Backed (remove id live)) (change_peers id (λ p. record p { connected = false }) ps)
unfolding change_peers
Backed-disconnect id live [] d h = tt
Backed-disconnect id live (p ∷ ps) d h = elim (Bool-cases (str_eq p.peer_id id)) [
  | inl e ↦
      let same : p.peer_id ≡ id = (eq_iff p.peer_id id).0 e in
      rw e (λ up. cc up, Backed-remove id live ps (rw (sym same) d.0) h.1)
  | inr e ↦
      let ne : id ≢ p.peer_id = λ same. ground (arith, eq_iff p.peer_id id) in
      rw e (
        λ up. contains_key-remove_other id p.peer_id live ne (h.0 up),
        Backed-disconnect id live ps d.1 h.1,
      )
]

named-remove_waiting :
    (n id : String) (ps : List PeerInfo)
    → named n (names ps) ≡ false
    → named n (names (remove_waiting id ps)) ≡ false
unfolding remove_waiting
named-remove_waiting n id [] h = refl
named-remove_waiting n id (p ∷ ps) h = elim (Bool-cases (str_eq p.peer_id n)) [
  | inl x ↦ let no : true ≡ false = rw x at h in cc no
  | inr x ↦
      let rest : named n (names ps) ≡ false = rw x at h in
      elim (Bool-cases (str_eq p.peer_id id && not p.connected)) [
        | inl y ↦ rw y rest
        | inr y ↦ rw (y, x) (named-remove_waiting n id ps rest)
      ]
]

pub Distinct-remove_waiting :
    (id : String) (ps : List PeerInfo)
    → Distinct (names ps)
    → Distinct (names (remove_waiting id ps))
unfolding remove_waiting
Distinct-remove_waiting id [] d = tt
Distinct-remove_waiting id (p ∷ ps) d = elim (Bool-cases (str_eq p.peer_id id && not p.connected)) [
  | inl y ↦ rw y d.1
  | inr y ↦ rw y (named-remove_waiting p.peer_id id ps d.0, Distinct-remove_waiting id ps d.1)
]

pub All-remove_waiting :
    (P : PeerInfo → Type 0) (id : String) (ps : List PeerInfo)
    → All P ps
    → All P (remove_waiting id ps)
unfolding remove_waiting
All-remove_waiting P id [] h = tt
All-remove_waiting P id (p ∷ ps) h = elim (Bool-cases (str_eq p.peer_id id && not p.connected)) [
  | inl y ↦ rw y h.1
  | inr y ↦ rw y (h.0, All-remove_waiting P id ps h.1)
]

pub expire-IsBacked :
    (id : String) (h : HostSession)
    → IsBacked h
    → IsBacked (record h { status = expire id h.status })
unfolding expire mutate_status recount
expire-IsBacked id h b = elim (Bool-cases (has_waiting id h.status.peers)) [
  | inl e ↦ rw e (
    Distinct-remove_waiting id h.status.peers b.0,
    All-remove_waiting (Backed h.live_connections) id h.status.peers b.1,
  )
  | inr e ↦ rw e b
]
