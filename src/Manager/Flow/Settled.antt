-- ===== src/Manager/Flow/Settled.antt =====
-- src/manager.rs: a client task never ends in between, and takes the relay only where it must.
use p2p_core.Base.{err, ℕ, List, String, [], false, refl, some, ◌++◌, any, ◌∷◌, ◌≡◌, ◌≤◌, ◌⊎◌, true}
use p2p_core.Models.{NetworkStatus, ConnectionState}
use p2p_core.Manager.Connect.{
  Decides, connect_with_retries, connect_with_retries-Decides, turns_needed,
}
use p2p_core.Manager.Links.{run_link}
use p2p_core.Manager.Links.Ends.{is_end}
use p2p_core.Manager.Sessions.{done}
use p2p_core.Manager.Flow.{
  ClientFlow, FlowNet, AppEvent, tunnel_failed, Run, after_attempts, flow_starting, linked_event,
  linked_status, run_client_connect_flow, run_relay_client_tunnel,
}
use p2p_core.Manager.{recount, mutate_status, push_log}

-- What a flow that does not fail shows: connected, or an error, and then it told of a direct
-- connection, which ended while its token was not cancelled.
abbrev pub IsShown : ClientFlow → FlowNet → NetworkStatus → List AppEvent → Type 0
IsShown f net s told =
    (s.state ≡ ConnectionState.connected)
    ⊎ ((s.state ≡ ConnectionState.error)
        × (any is_end net.link ≡ true)
        × (port : ℕ) × (told ≡ linked_event "direct-quic" f port ∷ []))

-- What a finished task shows: besides that, an error of which the application was told last.
abbrev pub Settled : ClientFlow → FlowNet → NetworkStatus → List AppEvent → Type 0
Settled f net s told =
    IsShown f net s told
    ⊎ ((s.state ≡ ConnectionState.error)
        × (before : List AppEvent) × (peer : String) × (reason : String) × (told
            ≡ before ++ (tunnel_failed peer reason ∷ [])))

abbrev IsGood : ClientFlow → FlowNet → Run → Type 0
IsGood f net r = (u : Unit {0}) → r.result ≡ done u → IsShown f net r.status r.told

-- Where one of the ten attempts decides, the tunnel is direct: a free local port, whatever the relay would do, gives the one peer a direct connection and the event of it, as it stands before anything happens on it.
pub run_client_connect_flow-direct :
    (f : ClientFlow) (net : FlowNet) (s : NetworkStatus) (c port : ℕ)
    (d : Decides net.cancelled net.attempt 1 c)
    → turns_needed d ≤ 10
    → net.cancelled_in_grace ≡ false
    → net.listener ≡ done port
    → net.link ≡ []
    → ((run_client_connect_flow f net s).result ≡ done tt)
      × ((run_client_connect_flow f net s).told ≡ linked_event "direct-quic" f port ∷ [])
      × ((run_client_connect_flow f net s).status.transport_path ≡ some "direct-quic")
      × ((run_client_connect_flow f net s).status.peer_count ≡ 1)
unfolding run_client_connect_flow after_attempts linked_status push_log mutate_status recount
    run_link
run_client_connect_flow-direct f net s c port d turns grace listening still =
    let connected =
      (connect_with_retries-Decides net.cancelled net.attempt (flow_starting s) c).1 (d, turns) in
    rw (grace, connected, listening, still) (refl, refl, refl, refl)

-- Where none of them decides, and the relay of the session that the host named opens, the tunnel is the relay's.
pub run_client_connect_flow-relayed :
    (f : ClientFlow) (net : FlowNet) (s : NetworkStatus) (port : ℕ) (session_id e : String)
    → (connect_with_retries net.cancelled net.attempt (flow_starting s)).0 ≡ err e
    → net.cancelled_in_grace ≡ false
    → f.relay_session_id ≡ some session_id
    → net.relay ≡ done port
    → ((run_client_connect_flow f net s).told ≡ linked_event "wss-relay" f port ∷ [])
      × ((run_client_connect_flow f net s).status.transport_path ≡ some "wss-relay")
unfolding run_client_connect_flow after_attempts run_relay_client_tunnel linked_status push_log
    mutate_status recount
run_client_connect_flow-relayed f net s port session_id e lost grace named open_ =
    rw (grace, lost, named, open_) (refl, refl)
