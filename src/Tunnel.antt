-- ===== src/Tunnel.antt =====
-- src/tunnel.rs: the reverse tunnel through a bore server. What the sockets give is an argument; a
-- connection's identifier is its text.
pub mod Copy
pub mod Control
pub mod Delivery
use p2p_core.Base.{
  ℕ, Bool, List, Option, String, [], if◌then◌else◌, none, some, suc, zero, ◌+◌, ◌∷◌,
}
use p2p_core.Text.{◌⧺◌, show_nat}

pub data Result (A : Type 0) : Type 0 where
  done : A → Result A
  failed : String → Result A

pub record ReverseTunnelConfig : Type 0 where
  pub server_host : String
  pub control_port : ℕ
  pub requested_remote_port : ℕ
  pub local_host : String
  pub local_port : ℕ

unfoldable pub bore_pub : ℕ → ReverseTunnelConfig
bore_pub local_port = record {
  server_host = "bore.pub";
  control_port = 7835;
  requested_remote_port = 0;
  local_host = "127.0.0.1";
  local_port = local_port;
}

pub record ReverseTunnelEndpoint : Type 0 where
  pub public_host : String
  pub public_port : ℕ

unfoldable pub as_socket_label : ReverseTunnelEndpoint → String
as_socket_label e = e.public_host ⧺ ":" ⧺ show_nat e.public_port

-- The two tests are `parse::<Ipv4Addr>()` and `parse::<Ipv6Addr>()`.
unfoldable pub as_multiaddr : (String → Bool) → (String → Bool) → ReverseTunnelEndpoint → String
as_multiaddr is_v4 is_v6 e =
    let kind =
      if is_v4 e.public_host then "/ip4/" else if is_v6 e.public_host then "/ip6/" else "/dns4/" in
    kind ⧺ e.public_host ⧺ "/tcp/" ⧺ show_nat e.public_port

pub data ClientMessage : Type 0 where
  hello : ℕ → ClientMessage
  accept : String → ClientMessage

pub data ServerMessage : Type 0 where
  hello : ℕ → ServerMessage
  heartbeat : ServerMessage
  connection : String → ServerMessage
  error : String → ServerMessage

-- What `recv` comes to: a message, the end of the stream, or a frame that cannot be read.
pub data Received : Type 0 where
  message : ServerMessage → Received
  closed : Received
  broken : String → Received

-- `recv_timeout` may also come too late.
pub data FirstFrame : Type 0 where
  arrived : Received → FirstFrame
  too_late : FirstFrame

abbrev pub first_answer : String → FirstFrame → Result ReverseTunnelEndpoint
first_answer server too_late = failed "таймаут ожидания control frame"
first_answer server (arrived closed) = failed "reverse tunnel server закрыл control connection"
first_answer server (arrived (broken e)) = failed e
first_answer server (arrived (message (ServerMessage.hello port))) =
    done (record { public_host = server; public_port = port })
first_answer server (arrived (message (error text))) =
    failed ("reverse tunnel server error: " ⧺ text)
first_answer server (arrived (message heartbeat)) =
    failed "неожиданный ответ reverse tunnel server: Heartbeat"
first_answer server (arrived (message (connection id))) =
    failed ("неожиданный ответ reverse tunnel server: Connection(" ⧺ id ⧺ ")")

abbrev pub after_hello : String → Result (Unit {0}) → FirstFrame → Result ReverseTunnelEndpoint
after_hello server (failed e) answer =
    failed ("не удалось отправить Hello на reverse tunnel server: " ⧺ e)
after_hello server (done sent) answer = first_answer server answer

-- `start_reverse_tunnel`: the connection, the sending of Hello, and the first answer.
unfoldable pub start_reverse_tunnel :
    ReverseTunnelConfig
    → Result (Unit {0})
    → Result (Unit {0})
    → FirstFrame
    → Result ReverseTunnelEndpoint
start_reverse_tunnel config (failed e) sent answer = failed e
start_reverse_tunnel config (done connected) sent answer =
    after_hello config.server_host sent answer

-- `run_reverse_tunnel_control_loop`, by what happens; `none` while it still waits. A connection is
-- accepted in a task of its own.
pub data ControlEvent : Type 0 where
  cancelled : ControlEvent
  received : Received → ControlEvent

pub record ControlRun : Type 0 where
  pub accepted : List String
  pub ended : Option (Result (Unit {0}))

abbrev pub ends : Result (Unit {0}) → ControlRun
ends r = record { accepted = []; ended = some r }

abbrev pub accepts : String → ControlRun → ControlRun
accepts id r = record { accepted = id ∷ r.accepted; ended = r.ended }

unfoldable pub control_loop : List ControlEvent → ControlRun
control_loop [] = record { accepted = []; ended = none }
control_loop (cancelled ∷ es) = ends (done tt)
control_loop (received closed ∷ es) = ends (done tt)
control_loop (received (broken e) ∷ es) = ends (failed e)
control_loop (received (message (error text)) ∷ es) =
    ends (failed ("reverse tunnel server error: " ⧺ text))
control_loop (received (message heartbeat) ∷ es) = control_loop es
control_loop (received (message (ServerMessage.hello port)) ∷ es) = control_loop es
control_loop (received (message (connection id)) ∷ es) = accepts id (control_loop es)

abbrev pub local_target_retry_attempts : ℕ
local_target_retry_attempts = 5

abbrev pub last_or : Option String → String
last_or none = "локальный target недоступен"
last_or (some e) = e

abbrev retry_turn : Result ℕ → (String → Result ℕ) → Result ℕ
retry_turn (done stream) again = done stream
retry_turn (failed e) again = again e

-- `n` attempts are left, of which the next has the number `attempt`.
unfoldable pub retry_loop : (ℕ → Result ℕ) → ℕ → ℕ → Option String → Result ℕ
retry_loop net zero attempt last = failed (last_or last)
retry_loop net (suc n) attempt last =
    let again : String → Result ℕ = λ e. retry_loop net n (attempt + 1) (some e) in
    retry_turn (net attempt) again

unfoldable pub connect_local_target_with_retry : (ℕ → Result ℕ) → Result ℕ
unfolding retry_loop
connect_local_target_with_retry net = retry_loop net local_target_retry_attempts 1 none
