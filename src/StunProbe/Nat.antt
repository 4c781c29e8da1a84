-- ===== src/StunProbe/Nat.antt =====
-- stun.rs: `detect_nat_type` and `preflight_port_check`. What a STUN request to each server ends in is
-- an argument; the two requests use one socket.
use p2p_core.Base.{
  ℕ, String, List, Option, [], if◌then◌else◌, map, none, not, refl, some, take, ◌&&◌, ◌++◌, ◌==◌,
  ◌∷◌, ◌≡◌, ap, arith, eq_iff, ◌↔◌, ◌≢◌,
}
use p2p_core.Net.{SocketAddr, same_ip, same_ip_iff, show_ip, show_addr}
use p2p_core.Text.{◌⧺◌, show_nat, join}

pub record NatTypeResult : Type 0 where
  pub nat_type : String
  pub public_ip : Option String
  pub public_port : Option ℕ
  pub mapped_addresses : List String
  pub note : String

-- `Result<SocketAddr>` of a request, an error by its text
pub data Reply : Type 0 where
  answered : SocketAddr → Reply
  failed : String → Reply

abbrev pub stun_servers : List String
stun_servers =
    "stun.yandex.ru:3478" ∷ "stun.sipnet.net:3478" ∷ "stun.l.google.com:19302"
    ∷ "stun1.l.google.com:19302" ∷ "stun.cloudflare.com:3478" ∷ []

abbrev push_reply : String → Reply → List SocketAddr × List String → List SocketAddr × List String
push_reply server (answered a) (mapped, errors) = (mapped ++ (a ∷ []), errors)
push_reply server (failed e) (mapped, errors) = (mapped, errors ++ ((server ⧺ ": " ⧺ e) ∷ []))

-- The `for` loop over the servers.
abbrev ask_servers :
    (String → Reply) → List String → List SocketAddr × List String → List SocketAddr × List String
ask_servers request [] acc = acc
ask_servers request (s ∷ ss) acc = ask_servers request ss (push_reply s (request s) acc)

blocked : List String → NatTypeResult
blocked errors = record {
  nat_type = "blocked";
  public_ip = none;
  public_port = none;
  mapped_addresses = [];
  note = "Все STUN серверы недоступны. UDP скорее всего заблокирован. Ошибки: " ⧺ join "; " errors;
}

restricted : SocketAddr → NatTypeResult
restricted a = record {
  nat_type = "restricted";
  public_ip = some (show_ip a.ip);
  public_port = some a.port;
  mapped_addresses = show_addr a ∷ [];
  note =
      "Один STUN ответил ("
      ⧺ show_addr a
      ⧺ "), второй недоступен. NAT скорее всего Restricted или Port-Restricted. P2P возможен с hole-punching.";
}

pub data NatKind : Type 0 where
  open_nat symmetric multiple_ips : NatKind

abbrev kind_of : SocketAddr → SocketAddr → NatKind
kind_of a b =
    let same_host = same_ip a.ip b.ip in
    let same_port = a.port == b.port in
    if same_host && same_port
    then open_nat
    else if same_host && not same_port
    then symmetric
    else multiple_ips

abbrev kind_text : NatKind → String
kind_text open_nat = "open"
kind_text symmetric = "symmetric"
kind_text multiple_ips = "multiple_ips"

two_note : NatKind → SocketAddr → SocketAddr → String
two_note open_nat a b =
    "NAT тип: Open / Full Cone. Публичный адрес: " ⧺ show_addr a ⧺ ". P2P работает отлично."
two_note symmetric a b =
    "NAT тип: Symmetric. Порт меняется для каждого соединения ("
    ⧺ show_addr a
    ⧺ " vs "
    ⧺ show_addr b
    ⧺ "). P2P QUIC hole-punching может не работать. Рекомендуется использовать WSS relay."
two_note multiple_ips a b =
    "Обнаружено несколько публичных IP ("
    ⧺ show_addr a
    ⧺ " и "
    ⧺ show_addr b
    ⧺ "). Возможно используется балансировщик нагрузки или многоуровневый NAT."

judge_two : SocketAddr → SocketAddr → List SocketAddr → NatTypeResult
unfolding two_note
judge_two a b rest = record {
  nat_type = kind_text (kind_of a b);
  public_ip = some (show_ip a.ip);
  public_port = some a.port;
  mapped_addresses = map show_addr (a ∷ b ∷ rest);
  note = two_note (kind_of a b) a b;
}

abbrev judge : List SocketAddr × List String → NatTypeResult
judge ([], errors) = blocked errors
judge (a ∷ [], errors) = restricted a
judge (a ∷ b ∷ rest, errors) = judge_two a b rest

bind_failed : String → NatTypeResult
bind_failed e = record {
  nat_type = "error";
  public_ip = none;
  public_port = none;
  mapped_addresses = [];
  note = "Failed to bind UDP socket to 0.0.0.0:0: " ⧺ e;
}

-- `some e` is the error of binding the socket.
unfoldable pub detect_nat_type : Option String → (String → Reply) → NatTypeResult
unfolding blocked restricted judge_two bind_failed
detect_nat_type (some e) request = bind_failed e
detect_nat_type none request = judge (ask_servers request (take 2 stun_servers) ([], []))

-- `TcpListener::bind` on the port; `some e` is its error.
unfoldable pub preflight_port_check : (ℕ → Option String) → ℕ → Option String
preflight_port_check bind port = elim (bind port) [
  | none ↦ none
  | some e ↦ some (
      "Порт "
      ⧺ show_nat port
      ⧺ " на 127.0.0.1 уже занят другим процессом: "
      ⧺ e
      ⧺ ". Закройте приложение, использующее этот порт, или выберите другой.")
]

-- What the two replies say of the address that the result carries.
abbrev pub first_server : String
first_server = "stun.yandex.ru:3478"

abbrev pub second_server : String
second_server = "stun.sipnet.net:3478"

kind_of_cases :
    (a b : SocketAddr)
    → ((kind_of a b ≡ open_nat) ↔ (a ≡ b))
      × ((kind_of a b ≡ symmetric) ↔ ((a.ip ≡ b.ip) × (a.port ≢ b.port)))
      × ((kind_of a b ≡ multiple_ips) ↔ (a.ip ≢ b.ip))
kind_of_cases a b = ground (arith, same_ip_iff a.ip b.ip)

kind_text-injective : (j k : NatKind) → kind_text j ≡ kind_text k → j ≡ k
kind_text-injective open_nat open_nat e = refl
kind_text-injective symmetric symmetric e = refl
kind_text-injective multiple_ips multiple_ips e = refl
kind_text-injective open_nat symmetric e = cc ((eq_iff "open" "symmetric").1 e)
kind_text-injective open_nat multiple_ips e = cc ((eq_iff "open" "multiple_ips").1 e)
kind_text-injective symmetric open_nat e = cc ((eq_iff "symmetric" "open").1 e)
kind_text-injective symmetric multiple_ips e = cc ((eq_iff "symmetric" "multiple_ips").1 e)
kind_text-injective multiple_ips open_nat e = cc ((eq_iff "multiple_ips" "open").1 e)
kind_text-injective multiple_ips symmetric e = cc ((eq_iff "multiple_ips" "symmetric").1 e)

-- What two replies should be taken for.
abbrev pub Verdict : Reply → Reply → NatTypeResult → Type 0
Verdict (failed e) (failed f) r =
    (r.nat_type ≡ "blocked") × (r.public_ip ≡ none) × (r.public_port ≡ none)
Verdict (answered a) (failed f) r =
    (r.nat_type ≡ "restricted")
    × (r.public_ip ≡ some (show_ip a.ip))
    × (r.public_port ≡ some a.port)
Verdict (failed e) (answered b) r =
    (r.nat_type ≡ "restricted")
    × (r.public_ip ≡ some (show_ip b.ip))
    × (r.public_port ≡ some b.port)
Verdict (answered a) (answered b) r =
    (r.public_ip ≡ some (show_ip a.ip))
    × (r.public_port ≡ some a.port)
    × ((r.nat_type ≡ "open") ↔ (a ≡ b))
    × ((r.nat_type ≡ "symmetric") ↔ ((a.ip ≡ b.ip) × (a.port ≢ b.port)))
    × ((r.nat_type ≡ "multiple_ips") ↔ (a.ip ≢ b.ip))

by_kind :
    (a b : SocketAddr) (k : NatKind) (P : Type 0)
    → (kind_of a b ≡ k) ↔ P
    → (kind_text (kind_of a b) ≡ kind_text k) ↔ P
by_kind a b k P h = (λ e. h.0 (kind_text-injective _ k e), λ p. ap kind_text (h.1 p))

Verdict-of :
    (r s : Reply)
    → Verdict r s (judge (push_reply second_server s (push_reply first_server r ([], []))))
unfolding blocked restricted judge_two
Verdict-of (failed e) (failed f) = (refl, refl, refl)
Verdict-of (answered a) (failed f) = (refl, refl, refl)
Verdict-of (failed e) (answered b) = (refl, refl, refl)
Verdict-of (answered a) (answered b) = (
  refl,
  refl,
  by_kind a b open_nat _ (kind_of_cases a b).0,
  by_kind a b symmetric _ (kind_of_cases a b).1,
  by_kind a b multiple_ips _ (kind_of_cases a b).2,
)

-- For every end of the two requests the result has the address of the first reply, and the type that
-- the replies call for: `blocked` on none, `restricted` on one; on two, `open` exactly if they are
-- the same, `symmetric` exactly if only the ports differ, `multiple_ips` exactly if the hosts differ.
pub detect_nat_type-Verdict :
    (request : String → Reply)
    → Verdict (request first_server) (request second_server) (detect_nat_type none request)
unfolding detect_nat_type
detect_nat_type-Verdict request = Verdict-of (request first_server) (request second_server)
