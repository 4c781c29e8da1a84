-- ===== src/Examples/StunRuns.antt =====
-- src/signaling.rs and src/stun.rs at concrete packets.
use p2p_core.Base.{
  List, [], ok, out_of_fuel, panic, refl, ◌++◌, ◌∷◌, ◌≡◌, ◌≢◌, All, Option, String, arith, false,
  if◌then◌else◌, none, some, str_eq, take,
}
use p2p_core.Base.Words.{Bytes, IsByte}
use p2p_core.Net.{SocketAddr, v4, is_ipv4}
use p2p_core.Signaling.{
  build_stun_binding_request, parse_stun_binding_response, attribute_loop, match_attribute,
  parse_mapped_address, parse_xor_mapped_address,
}
use p2p_core.Signaling.Attributes.{Attribute, first_addr}
use p2p_core.Signaling.Answer.{parse_total, transaction}
use p2p_core.Signaling.Parse.{outcome}
use p2p_core.Signaling.RoundTrip.{encode_response, parse-encode_response}
use p2p_core.Signaling.Discover.{discover_public_addr, discover_rounds, listen, resolve}
use p2p_core.Signaling.Discover.Answers.{discover_answers}
use p2p_core.Signaling.Punch.{punch_remote}
use p2p_core.Signaling.Punch.Reach.{IsNear, punch_remote_interior}
use p2p_core.StunProbe.{parse_reply}
use p2p_core.StunProbe.Agreement.{parse_reply_total, parsers_agree}
use p2p_core.StunProbe.Nat.{Reply, answered, failed}
use mathlib.Core.List.{Memᴰ}

abbrev tx : Bytes
tx = 1 ∷ 2 ∷ 3 ∷ 4 ∷ 5 ∷ 6 ∷ 7 ∷ 8 ∷ 9 ∷ 10 ∷ 11 ∷ 12 ∷ []

-- A SOFTWARE attribute of three bytes, then 203.0.113.5:4660 under XOR.
abbrev attributes : List Attribute
attributes =
    record { kind = 0x8022; value = 97 ∷ 98 ∷ 99 ∷ [] }
    ∷ record { kind = 0x0020; value = 0 ∷ 1 ∷ 51 ∷ 38 ∷ 234 ∷ 18 ∷ 213 ∷ 71 ∷ [] }
    ∷ []

abbrev request : Bytes
request = 0 ∷ 1 ∷ 0 ∷ 0 ∷ 0x21 ∷ 0x12 ∷ 0xa4 ∷ 0x42 ∷ tx

abbrev response : Bytes
response =
    1 ∷ 1 ∷ 0 ∷ 20 ∷ 0x21 ∷ 0x12 ∷ 0xa4 ∷ 0x42 ∷ tx
    ++ (0x80 ∷ 0x22 ∷ 0 ∷ 3 ∷ 97 ∷ 98 ∷ 99 ∷ 0 ∷ 0 ∷ 0x20 ∷ 0 ∷ 8 ∷ 0 ∷ 1 ∷ 51 ∷ 38 ∷ 234 ∷ 18 ∷ 213
        ∷ 71 ∷ [])

abbrev public_addr : SocketAddr
public_addr = record { ip = v4 203 0 113 5; port = 4660 }

parse_total_example :
    (parse_stun_binding_response request response ≢ panic)
    × (parse_stun_binding_response request response ≢ out_of_fuel)
parse_total_example = parse_total request response refl

response_parses : parse_stun_binding_response request response ≡ ok public_addr
unfolding parse_stun_binding_response attribute_loop match_attribute parse_xor_mapped_address
    parse_mapped_address
response_parses = refl

parse-encode_response_example :
    parse_stun_binding_response (build_stun_binding_request tx) (encode_response tx attributes)
    ≡ outcome (first_addr attributes)
parse-encode_response_example =
    parse-encode_response tx attributes refl
      ((omega arith, omega arith), ((omega arith, omega arith), tt))

bytes_response : All IsByte response
bytes_response = ground arith

parse_reply_total_example :
    (parse_reply tx response 40 ≢ panic) × (parse_reply tx response 40 ≢ out_of_fuel)
parse_reply_total_example = parse_reply_total tx response 40 (omega arith) bytes_response

parsers_agree_example :
    parse_reply (transaction request) response 40
    ≡ parse_stun_binding_response request (take 40 response)
parsers_agree_example =
    parsers_agree request response 40 refl (omega arith) bytes_response (omega arith)

abbrev answers_of : String → Reply
answers_of s = if str_eq s "stun.yandex.ru:3478" then answered public_addr else failed "timed out"

punch_remote_interior_example : All (IsNear public_addr 75) (punch_remote (λ n. false) public_addr)
punch_remote_interior_example =
    punch_remote_interior (λ n. false) public_addr (omega arith) (omega arith)

abbrev server : SocketAddr
server = record { ip = v4 198 51 100 7; port = 3478 }

abbrev lookup_host : String → Option (List SocketAddr)
lookup_host s = if str_eq s "stun.example" then some (server ∷ []) else none

-- A stray packet in the first round, the answer in the second.
abbrev packets : List (List Bytes)
packets = (tx ∷ []) ∷ (response ∷ []) ∷ []

build_request : build_stun_binding_request tx ≡ request
unfolding build_stun_binding_request
build_request = refl

resolves : resolve lookup_host ("stun.example" ∷ []) ≡ server ∷ []
unfolding resolve is_ipv4
resolves = refl

discover_answers_example :
    (b : SocketAddr) × (discover_public_addr lookup_host tx ("stun.example" ∷ []) packets ≡ ok b)
discover_answers_example =
    discover_answers lookup_host tx ("stun.example" ∷ []) packets (response ∷ []) response
      public_addr server [] resolves (Memᴰ.tail (Memᴰ.head refl)) (Memᴰ.head refl)
      (rw build_request response_parses)

found : discover_public_addr lookup_host tx ("stun.example" ∷ []) packets ≡ ok public_addr
unfolding discover_public_addr resolve is_ipv4 discover_rounds listen build_stun_binding_request
    parse_stun_binding_response attribute_loop match_attribute parse_xor_mapped_address
    parse_mapped_address
found = refl
