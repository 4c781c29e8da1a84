-- ===== src/Manager/Peers.antt =====
-- The peers of the status: their names, what each is set to, and the state of a host.
use p2p_core.Base.{
  String, Bool, Bool-cases, List, Option, [], ap, arith, eq_iff, false, if◌then◌else◌, inl, inr,
  none, refl, some, str_eq, true, ◌++◌, ◌∙◌, ◌∷◌, ◌≡◌, sym,
}
use mathlib.Core.Option.{map as map_option}
use p2p_core.Models.{PeerInfo, NetworkStatus}
use p2p_core.Manager.{
  mutate_status, recount, change_peers, has_peer, renewed, upsert_peers, upsert_peer, or_else,
  is_host,
}

abbrev pub names : List PeerInfo → List String
names [] = []
names (p ∷ ps) = p.peer_id ∷ names ps

abbrev pub named : String → List String → Bool
named id [] = false
named id (n ∷ ns) = if str_eq n id then true else named id ns

abbrev pub Distinct : List String → Type 0
Distinct [] = Unit
Distinct (n ∷ ns) = (named n ns ≡ false) × Distinct ns

-- The change keeps a peer's name.
abbrev pub KeepsName : (PeerInfo → PeerInfo) → Type 0
KeepsName f = (p : PeerInfo) → (f p).peer_id ≡ p.peer_id

pub names-change_peers :
    (id : String) (f : PeerInfo → PeerInfo) (ps : List PeerInfo)
    → KeepsName f
    → names (change_peers id f ps) ≡ names ps
unfolding change_peers
names-change_peers id f [] k = refl
names-change_peers id f (p ∷ ps) k = elim (Bool-cases (str_eq p.peer_id id)) [
  | inl e ↦ rw e (ap (λ n. n ∷ names ps) (k p))
  | inr e ↦ rw e (ap (λ ns. p.peer_id ∷ ns) (names-change_peers id f ps k))
]

has_peer-named : (id : String) (ps : List PeerInfo) → has_peer id ps ≡ named id (names ps)
has_peer-named id [] = refl
has_peer-named id (p ∷ ps) =
    ap (λ b. if str_eq p.peer_id id then true else b) (has_peer-named id ps)

names-append :
    (ps : List PeerInfo) (p : PeerInfo) → names (ps ++ (p ∷ [])) ≡ names ps ++ (p.peer_id ∷ [])
names-append [] p = refl
names-append (q ∷ ps) p = ap (λ ns. q.peer_id ∷ ns) (names-append ps p)

named-append :
    (a b : String) (ns : List String)
    → named a (ns ++ (b ∷ [])) ≡ (if named a ns then true else str_eq b a)
named-append a b [] = ground arith
named-append a b (n ∷ ns) = ground (arith, named-append a b ns)

Distinct-append :
    (b : String) (ns : List String) → named b ns ≡ false → Distinct ns → Distinct (ns ++ (b ∷ []))
Distinct-append b [] h d = (refl, tt)
Distinct-append b (n ∷ ns) h d = elim (Bool-cases (str_eq n b)) [
  | inl e ↦ let no : true ≡ false = rw e at h in cc no
  | inr e ↦
      let rest : named b ns ≡ false = rw e at h in
      let other : str_eq b n ≡ false = ground (arith, eq_iff n b, eq_iff b n) in
      (named-append n b ns ∙ rw (d.0, other) refl, Distinct-append b ns rest d.1)
]

pub upsert_peers-Distinct :
    (new : PeerInfo) (ps : List PeerInfo)
    → Distinct (names ps)
    → Distinct (names (upsert_peers new ps))
unfolding upsert_peers
upsert_peers-Distinct new ps d = elim (Bool-cases (has_peer new.peer_id ps)) [
  | inl known ↦ rw (known, names-change_peers new.peer_id (renewed new) ps (λ p. refl)) d
  | inr unknown ↦
      let unnamed : named new.peer_id (names ps) ≡ false =
        sym (has_peer-named new.peer_id ps) ∙ unknown in
      rw (unknown, names-append ps new) (Distinct-append new.peer_id (names ps) unnamed d)
]

pub upsert_peer-peers :
    (new : PeerInfo) (s : NetworkStatus) → (upsert_peer new s).peers ≡ upsert_peers new s.peers
unfolding upsert_peer mutate_status recount
upsert_peer-peers new s = elim (Bool-cases (is_host s.mode)) [
  | inl e ↦ rw e refl
  | inr e ↦ rw e refl
]

-- Setting a peer keeps the names distinct, whether the peer is new or known.
pub upsert_peer-Distinct :
    (new : PeerInfo) (s : NetworkStatus)
    → Distinct (names s.peers)
    → Distinct (names (upsert_peer new s).peers)
upsert_peer-Distinct new s d = rw (upsert_peer-peers new s) (upsert_peers-Distinct new s.peers d)

-- The first peer of that name.
abbrev pub find_peer : String → List PeerInfo → Option PeerInfo
find_peer id [] = none
find_peer id (p ∷ ps) = if str_eq p.peer_id id then some p else find_peer id ps

pub find_peer-change_peers :
    (id b : String) (f : PeerInfo → PeerInfo) (ps : List PeerInfo)
    → KeepsName f
    → find_peer b (change_peers id f ps)
      ≡ (if str_eq id b then map_option f (find_peer b ps) else find_peer b ps)
unfolding change_peers
find_peer-change_peers id b f [] k = ground arith
find_peer-change_peers id b f (p ∷ ps) k = elim (Bool-cases (str_eq p.peer_id id)) [
  | inl e ↦
      let same : p.peer_id ≡ id = (eq_iff p.peer_id id).0 e in
      elim (Bool-cases (str_eq p.peer_id b)) [
        | inl h ↦
            let g : str_eq id b ≡ true = rw (sym same) h in
            let kept : str_eq (f p).peer_id b ≡ true = ap (λ n. str_eq n b) (k p) ∙ h in
            rw (e, h, g, kept) refl
        | inr h ↦
            let g : str_eq id b ≡ false = rw (sym same) h in
            let kept : str_eq (f p).peer_id b ≡ false = ap (λ n. str_eq n b) (k p) ∙ h in
            rw (e, h, g, kept) refl
      ]
  | inr e ↦ elim (Bool-cases (str_eq p.peer_id b)) [
    | inl h ↦
        let same : p.peer_id ≡ b = (eq_iff p.peer_id b).0 h in
        let g : str_eq id b ≡ false = ground (arith, eq_iff id b, eq_iff p.peer_id id) in
        rw (e, h, g) refl
    | inr h ↦ rw (e, h) (find_peer-change_peers id b f ps k)
  ]
]

find_peer-append :
    (b : String) (ps : List PeerInfo) (new : PeerInfo)
    → find_peer b (ps ++ (new ∷ []))
      ≡ (if has_peer b ps then find_peer b ps else if str_eq new.peer_id b then some new else none)
find_peer-append b [] new = refl
find_peer-append b (p ∷ ps) new = elim (Bool-cases (str_eq p.peer_id b)) [
  | inl e ↦ rw e refl
  | inr e ↦ rw e (find_peer-append b ps new)
]

find_peer-missing :
    (b : String) (ps : List PeerInfo) → has_peer b ps ≡ false → find_peer b ps ≡ none
find_peer-missing b [] h = refl
find_peer-missing b (p ∷ ps) h = elim (Bool-cases (str_eq p.peer_id b)) [
  | inl e ↦ let no : true ≡ false = rw e at h in cc no
  | inr e ↦ let rest : has_peer b ps ≡ false = rw e at h in rw e (find_peer-missing b ps rest)
]

find_peer-known :
    (b : String) (ps : List PeerInfo)
    → has_peer b ps ≡ true
    → (p : PeerInfo) × (find_peer b ps ≡ some p) × (p.peer_id ≡ b)
find_peer-known b [] h = cc h
find_peer-known b (p ∷ ps) h = elim (Bool-cases (str_eq p.peer_id b)) [
  | inl e ↦ (p, rw e refl, (eq_iff p.peer_id b).0 e)
  | inr e ↦
      let rest : has_peer b ps ≡ true = rw e at h in
      let (q, found, same) = find_peer-known b ps rest in (q, rw e found, same)
]

-- What a peer's entry is after it was set: the new one, with the transport that was known where
-- the new one names none.
abbrev pub set_to : PeerInfo → Option PeerInfo → PeerInfo
set_to new none = new
set_to new (some old) = record new { transport = or_else new.transport old.transport }

-- Setting a peer sets that entry and no other.
pub find_peer-upsert_peer :
    (new : PeerInfo) (b : String) (s : NetworkStatus)
    → find_peer b (upsert_peer new s).peers ≡ (
        if str_eq new.peer_id b
        then some (set_to new (find_peer b s.peers))
        else find_peer b s.peers)
unfolding upsert_peers
find_peer-upsert_peer new b s =
    rw (upsert_peer-peers new s) (elim (Bool-cases (has_peer new.peer_id s.peers)) [
      | inl known ↦
          rw (known, find_peer-change_peers new.peer_id b (renewed new) s.peers (λ p. refl))
            (elim (Bool-cases (str_eq new.peer_id b)) [
              | inl e ↦
                  let same : new.peer_id ≡ b = (eq_iff new.peer_id b).0 e in
                  let (p, found, is) = find_peer-known b s.peers (rw (sym same) known) in
                  rw (e, found)
                    (ap
                      (λ n.
                        some (record new {
                          peer_id = n;
                          transport = or_else new.transport p.transport;
                        }))
                      (is ∙ sym same))
              | inr e ↦ rw e refl
            ])
      | inr unknown ↦
          rw (unknown, find_peer-append b s.peers new)
            (elim (Bool-cases (str_eq new.peer_id b)) [
              | inl e ↦
                  let same : new.peer_id ≡ b = (eq_iff new.peer_id b).0 e in
                  let missing : has_peer b s.peers ≡ false = rw (sym same) unknown in
                  rw (e, missing, find_peer-missing b s.peers missing) refl
              | inr e ↦ elim (Bool-cases (has_peer b s.peers)) [
                | inl h ↦ rw (e, h) refl
                | inr h ↦ rw (e, h, find_peer-missing b s.peers h) refl
              ]
            ])
    ])
