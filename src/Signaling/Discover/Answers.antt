-- ===== src/Signaling/Discover/Answers.antt =====
-- Which packets `discover_public_addr` answers with.
use p2p_core.Base.{
  List, Outcome, [], ok, refl, some, ◌∷◌, ◌≡◌, Option, arith, inl, inr, ◌⊎◌, String, err, none,
  out_of_fuel, panic, take,
}
use mathlib.Core.List.{Memᴰ}
use p2p_core.Base.Words.{Bytes}
use p2p_core.Signaling.{StunError, parse_stun_binding_response, build_stun_binding_request}
use p2p_core.Signaling.Discover.{
  listen, discover_rounds, first_some, or_later, ask, discover_public_addr, resolve,
}
use p2p_core.Net.{SocketAddr}

-- A packet of one of the rounds that the parser accepts with the address `a`.
pub record IsAnswered (request : Bytes) (rounds : List (List Bytes)) (a : SocketAddr) : Type 0 where
  pub round : List Bytes
  pub packet : Bytes
  pub in_rounds : Memᴰ round rounds
  pub in_round : Memᴰ packet round
  pub accepted : parse_stun_binding_response request packet ≡ ok a

module _ (request : Bytes) where
  or_later_cases :
      (r : Outcome StunError SocketAddr) (later : Option SocketAddr) (a : SocketAddr)
      → or_later r later ≡ some a
      → (r ≡ ok a) ⊎ (later ≡ some a)
  or_later_cases r later a h = ground arith

  listen_finds :
      (ps : List Bytes) (a : SocketAddr)
      → listen request ps ≡ some a
      → (p : Bytes) × Memᴰ p ps × (parse_stun_binding_response request p ≡ ok a)
  unfolding listen
  listen_finds [] a h = cc
  listen_finds (p ∷ ps) a h =
      elim (or_later_cases (parse_stun_binding_response request p) (listen request ps) a h) [
        | inl now ↦ (p, Memᴰ.head refl, now)
        | inr later ↦ let (q, m, e) = listen_finds ps a later in (q, Memᴰ.tail m, e)
      ]

  first_some_cases :
      (r later : Option SocketAddr) (a : SocketAddr)
      → first_some r later ≡ some a
      → (r ≡ some a) ⊎ (later ≡ some a)
  first_some_cases r later a h = ground arith

  rounds_find :
      (rs : List (List Bytes)) (a : SocketAddr)
      → discover_rounds request rs ≡ some a
      → IsAnswered request rs a
  unfolding discover_rounds
  rounds_find [] a h = cc
  rounds_find (r ∷ rs) a h = elim (first_some_cases (listen request r) _ a h) [
    | inl now ↦
        let (p, m, e) = listen_finds r a now in
        record { round = r; packet = p; in_rounds = Memᴰ.head refl; in_round = m; accepted = e }
    | inr later ↦
        let w = rounds_find rs a later in
        record {
          round = w.round;
          packet = w.packet;
          in_rounds = Memᴰ.tail w.in_rounds;
          in_round = w.in_round;
          accepted = w.accepted;
        }
  ]

  or_later-some :
      (r : Outcome StunError SocketAddr) {later : Option SocketAddr} {b : SocketAddr}
      → later ≡ some b
      → (c : SocketAddr) × (or_later r later ≡ some c)
  or_later-some (ok a) h = (a, refl)
  or_later-some (err e) {b} h = (b, h)
  or_later-some panic {b} h = (b, h)
  or_later-some out_of_fuel {b} h = (b, h)

  first_some-some :
      (o : Option SocketAddr) {later : Option SocketAddr} {b : SocketAddr}
      → later ≡ some b
      → (c : SocketAddr) × (first_some o later ≡ some c)
  first_some-some (some a) h = (a, refl)
  first_some-some none {b} h = (b, h)

  listen-some :
      (ps : List Bytes) (p : Bytes) (a : SocketAddr)
      → Memᴰ p ps
      → parse_stun_binding_response request p ≡ ok a
      → (b : SocketAddr) × (listen request ps ≡ some b)
  unfolding listen
  listen-some [] p a m h = elim m [ ]
  listen-some (q ∷ ps) p a (Memᴰ.head e) h = (a, rw (← e, h))
  listen-some (q ∷ ps) p a (Memᴰ.tail m) h =
      let (b, later) = listen-some ps p a m h in
      or_later-some (parse_stun_binding_response request q) later

  rounds-some :
      (rs : List (List Bytes)) (r : List Bytes) (b : SocketAddr)
      → Memᴰ r rs
      → listen request r ≡ some b
      → (c : SocketAddr) × (discover_rounds request rs ≡ some c)
  unfolding discover_rounds
  rounds-some [] r b m h = elim m [ ]
  rounds-some (q ∷ rs) r b (Memᴰ.head e) h = (b, rw (← e, h))
  rounds-some (q ∷ rs) r b (Memᴰ.tail m) h =
      let (c, later) = rounds-some rs r b m h in first_some-some (listen request q) later

ask_cases :
    (servers : List SocketAddr) (found : Option SocketAddr) (a : SocketAddr)
    → ask servers found ≡ ok a
    → found ≡ some a
ask_cases [] found a h = cc
ask_cases (s ∷ ss) none a h = cc
ask_cases (s ∷ ss) (some b) a h = ground arith

module _ (lookup_host : String → Option (List SocketAddr)) (tx : Bytes)
    (config_servers : List String) (packets : List (List Bytes)) where
  -- An address that is found comes from a packet of the first four rounds that answers the request.
  pub discover_finds :
      (a : SocketAddr)
      → discover_public_addr lookup_host tx config_servers packets ≡ ok a
      → IsAnswered (build_stun_binding_request tx) (take 4 packets) a
  unfolding discover_public_addr
  discover_finds a h = finds config_servers h
    where
      finds :
          (ss : List String)
          → discover_public_addr lookup_host tx ss packets ≡ ok a
          → IsAnswered (build_stun_binding_request tx) (take 4 packets) a
      finds [] e = cc
      finds (s ∷ ss) e =
          rounds_find (build_stun_binding_request tx) (take 4 packets) a
            (ask_cases (resolve lookup_host (s ∷ ss)) _ a e)

  -- Where a server resolves, and an answer arrives in one of the first four rounds, an address is
  -- found.
  pub discover_answers :
      (round : List Bytes) (packet : Bytes) (a server : SocketAddr) (servers : List SocketAddr)
      → resolve lookup_host config_servers ≡ server ∷ servers
      → Memᴰ round (take 4 packets)
      → Memᴰ packet round
      → parse_stun_binding_response (build_stun_binding_request tx) packet ≡ ok a
      → (b : SocketAddr) × (discover_public_addr lookup_host tx config_servers packets ≡ ok b)
  discover_answers round packet a server servers e m n h =
      let request = build_stun_binding_request tx in
      let (b, heard) = listen-some request round packet a n h in
      let (c, found) = rounds-some request (take 4 packets) round b m heard in
      (c, answers config_servers c e found)
    where
      answers :
          (ss : List String) (c : SocketAddr)
          → resolve lookup_host ss ≡ server ∷ servers
          → discover_rounds (build_stun_binding_request tx) (take 4 packets) ≡ some c
          → discover_public_addr lookup_host tx ss packets ≡ ok c
      answers [] c r f = unfold resolve in cc
      answers (s ∷ ss) c r f = unfold discover_public_addr in rw (r, f)
