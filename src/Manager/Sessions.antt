-- ===== src/Manager/Sessions.antt =====
-- src/manager.rs: the session of `NetworkManager` and `reset_session`. The operations hold the lock
-- `control`, so one follows the other; a `World` is the state between two of them.
pub mod Hosting
pub mod Joining
pub mod Commands
pub mod Relays
pub mod Owned
pub mod Leaks
use p2p_core.Base.{
  ℕ, Bool, List, Option, String, [], keep_if, none, not, some, ◌++◌, ◌==◌, ◌∷◌, inl, inr, refl, ◌≡◌,
  ◌⊎◌,
}
use p2p_core.Net.{SocketAddr, show_addr}
use p2p_core.Text.{◌⧺◌}
use p2p_core.Models.{NetworkStatus}
use p2p_core.Manager.{push_log, cleared_status}
use p2p_core.Manager.Host.{close, Connection, Effect}

-- What a call of the system comes to.
pub data Result (A : Type 0) : Type 0 where
  done : A → Result A
  failed : String → Result A

pub Result-cases :
    {A : Type 0} (r : Result A) → ((a : A) × (r ≡ done a)) ⊎ ((e : String) × (r ≡ failed e))
Result-cases (done a) = inl (a, refl)
Result-cases (failed e) = inr (e, refl)

pub record HostRelayRuntime : Type 0 where
  pub session_id : String
  pub cancel : ℕ
  pub runtime : ℕ

-- Tokens and tasks are numbers. The sockets and the UPnP mapping are left out.
pub record HostControl : Type 0 where
  pub room_name : String
  pub peer_id : String
  pub local_game_port : ℕ
  pub expected_peers : List (String × String)
  pub live_connections : List (String × Connection)
  pub relay_sessions : List (String × HostRelayRuntime)
  pub e4mc_runtime : Option (ℕ × ℕ)
  pub force_direct : Bool

pub record PreparedClientControl : Type 0 where
  pub peer_addr : SocketAddr
  pub peer_id : String
  pub room_name : String
  pub host_name : String
  pub mc_version : String
  pub slots : String

pub data SessionControl : Type 0 where
  host : HostControl → SessionControl
  prepared_client : PreparedClientControl → SessionControl
  client : SocketAddr → SessionControl

pub record SessionRuntime : Type 0 where
  pub cancel : ℕ
  pub tasks : List ℕ
  pub control : SessionControl

-- `tasks` are those that were spawned and not aborted, `tokens` those that were made and not
-- cancelled, `left` the hosts whose presence was taken back.
pub record World : Type 0 where
  pub session : Option SessionRuntime
  pub status : NetworkStatus
  pub fresh : ℕ
  pub tasks : List ℕ
  pub tokens : List ℕ
  pub effects : List Effect
  pub left : List String

abbrev pub without : ℕ → List ℕ → List ℕ
without n ns = keep_if (λ k. not (k == n)) ns

abbrev pub without_all : List ℕ → List ℕ → List ℕ
without_all [] ns = ns
without_all (k ∷ ks) ns = without_all ks (without k ns)

abbrev pub set_status : (NetworkStatus → NetworkStatus) → World → World
set_status f w = record w { status = f w.status }

abbrev pub overwrite_status : NetworkStatus → World → World
overwrite_status s w = record w { status = s }

abbrev pub abort_all : List ℕ → World → World
abort_all ids w = record w { tasks = without_all ids w.tasks }

abbrev pub cancel_token : ℕ → World → World
cancel_token t w = record w { tokens = without t w.tokens }

abbrev pub closings : List (String × Connection) → List Effect
closings [] = []
closings ((id, c) ∷ cs) = close c 0 "session-reset" ∷ closings cs

abbrev pub end_relay : Option HostRelayRuntime → World → World
end_relay none w = w
end_relay (some r) w = abort_all (r.runtime ∷ []) (cancel_token r.cancel w)

abbrev pub end_relays : List (String × HostRelayRuntime) → World → World
end_relays [] w = w
end_relays ((id, r) ∷ rs) w = end_relays rs (end_relay (some r) w)

abbrev pub end_e4mc : Option (ℕ × ℕ) → World → World
end_e4mc none w = w
end_e4mc (some (token, task)) w = abort_all (task ∷ []) (cancel_token token w)

unfoldable pub end_control : SessionControl → World → World
end_control (host h) w = end_relays h.relay_sessions (
    end_e4mc h.e4mc_runtime (record w {
      effects = w.effects ++ closings h.live_connections;
      left = w.left ++ (h.peer_id ∷ []);
    }))
end_control (prepared_client c) w =
    set_status
      (push_log ("Подготовленная клиентская сессия с " ⧺ show_addr c.peer_addr ⧺ " очищена.")) w
end_control (client a) w =
    set_status (push_log ("Клиентская сессия с " ⧺ show_addr a ⧺ " очищена.")) w

unfoldable pub end_session : Option SessionRuntime → World → World
unfolding end_control
end_session none w = w
end_session (some r) w =
    abort_all r.tasks (end_control r.control (cancel_token r.cancel (record w { session = none })))

unfoldable pub reset_session : World → World
unfolding end_session
reset_session w = overwrite_status cleared_status (end_session w.session w)
