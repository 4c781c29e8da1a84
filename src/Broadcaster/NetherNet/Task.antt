-- ===== src/Broadcaster/NetherNet/Task.antt =====
-- src/nethernet_broadcaster.rs: the start of the broadcaster and the loop of its task.
use p2p_core.Base.{ℕ, List, String, [], if◌then◌else◌, leb, ◌∷◌}
use p2p_core.Base.Words.{Bytes}
use p2p_core.Discovery.NetherNet.{Ciphers, Reading}
use p2p_core.Broadcaster.{Room}
use p2p_core.Broadcaster.NetherNet.{build_response_packet}
use p2p_core.Manager.Sessions.{Result, done, failed}

-- What the socket of the task comes to: the length of a datagram with its sender, an error, or the
-- token's cancellation.
pub data LanEvent : Type 0 where
  datagram : ℕ → String → LanEvent
  socket_error : LanEvent
  stopped : LanEvent

-- The sockets at port 7551 and at any port, and the local address.
pub record LanSockets : Type 0 where
  pub fixed : Result (Unit {0})
  pub any_port : Result (Unit {0})
  pub local_addr : Result (Unit {0})

-- The key, by SHA-256, and the number drawn for the sender.
pub record Sender : Type 0 where
  pub key : Bytes
  pub sender_id : ℕ

abbrev pub answered :
    ℕ → String → Reading Bytes → List (String × Reading Bytes) → List (String × Reading Bytes)
answered len addr packet rest = if leb 32 len then (addr, packet) ∷ rest else rest

module _ (ciphers : Ciphers) where
  -- The answers, each with the address it goes to.
  unfoldable pub nethernet_loop : Sender → Room → List LanEvent → List (String × Reading Bytes)
  nethernet_loop s r [] = []
  nethernet_loop s r (datagram len addr ∷ es) =
      answered len addr
        (build_response_packet ciphers s.key s.sender_id r.room_name r.host_name r.slots)
        (nethernet_loop s r es)
  nethernet_loop s r (socket_error ∷ es) = nethernet_loop s r es
  nethernet_loop s r (stopped ∷ es) = []

  abbrev nethernet_bound :
      Sender → Room → List LanEvent → Result (Unit {0}) → Result (List (String × Reading Bytes))
  nethernet_bound s r es (failed e) = failed e
  nethernet_bound s r es (done u) = done (nethernet_loop s r es)

  -- `NetherNetBroadcaster::start`, with all that its task answers.
  unfoldable pub start_nethernet :
      LanSockets → Sender → Room → List LanEvent → Result (List (String × Reading Bytes))
  unfolding nethernet_loop
  start_nethernet net s r es = elim net.fixed [
    | done u ↦ nethernet_bound s r es net.local_addr
    | failed e ↦ elim net.any_port [
      | done u ↦ nethernet_bound s r es net.local_addr
      | failed e' ↦ failed e'
    ]
  ]
