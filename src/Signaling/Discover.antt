-- ===== src/Signaling/Discover.antt =====
-- signaling.rs: `discover_public_addr`. The network is an argument: what the name server answers for
-- each STUN server, and the packets that arrive in each of the four rounds before its 900 ms are
-- over (or a receive fails, which ends the round too).
pub mod Answers
use p2p_core.Base.{List, Option, Outcome, String, [], err, if◌then◌else◌, none, ok, some, take, ◌∷◌}
use p2p_core.Base.Words.{Bytes}
use p2p_core.Signaling.{build_stun_binding_request, parse_stun_binding_response, StunError}
use p2p_core.Net.{SocketAddr, is_ipv4}

pub data DiscoverError : Type 0 where
  no_servers_configured : DiscoverError
  no_server_resolved : DiscoverError
  all_timed_out : DiscoverError

-- `addrs.find(SocketAddr::is_ipv4)`
abbrev pub find_ipv4 : List SocketAddr → Option SocketAddr
find_ipv4 [] = none
find_ipv4 (a ∷ as') = if is_ipv4 a then some a else find_ipv4 as'

-- The first IPv4 address of each server that resolves to one.
unfoldable pub resolve : (String → Option (List SocketAddr)) → List String → List SocketAddr
resolve lookup_host [] = []
resolve lookup_host (s ∷ ss) =
    let rest = resolve lookup_host ss in
    elim (lookup_host s) [
      | none ↦ rest
      | some addrs ↦ elim (find_ipv4 addrs) [ none ↦ rest | some a ↦ a ∷ rest ]
    ]

-- `if let Ok(addr) = …`; the parser has no other ends than these two.
abbrev pub or_later : Outcome StunError SocketAddr → Option SocketAddr → Option SocketAddr
or_later (ok a) later = some a
or_later _ later = later

-- One round: the packets are read until one is a proper answer.
unfoldable pub listen : Bytes → List Bytes → Option SocketAddr
listen request [] = none
listen request (p ∷ ps) = or_later (parse_stun_binding_response request p) (listen request ps)

abbrev pub first_some : Option SocketAddr → Option SocketAddr → Option SocketAddr
first_some (some a) later = some a
first_some none later = later

-- The rounds that are left.
unfoldable pub discover_rounds : Bytes → List (List Bytes) → Option SocketAddr
unfolding listen
discover_rounds request [] = none
discover_rounds request (r ∷ rs) = first_some (listen request r) (discover_rounds request rs)

abbrev pub or_timed_out : Option SocketAddr → Outcome DiscoverError SocketAddr
or_timed_out none = err all_timed_out
or_timed_out (some a) = ok a

abbrev pub ask : List SocketAddr → Option SocketAddr → Outcome DiscoverError SocketAddr
ask [] found = err no_server_resolved
ask (a ∷ as') found = or_timed_out found

-- `tx` is the random part of the request, and `packets` has a list for each round.
unfoldable pub discover_public_addr :
    (String → Option (List SocketAddr))
    → Bytes
    → List String
    → List (List Bytes)
    → Outcome DiscoverError SocketAddr
discover_public_addr lookup_host tx [] packets = err no_servers_configured
discover_public_addr lookup_host tx (s ∷ ss) packets =
    ask (resolve lookup_host (s ∷ ss))
      (discover_rounds (build_stun_binding_request tx) (take 4 packets))
