-- ===== src/Examples/SessionRuns.antt =====
-- Runs of the manager's sessions and of a client's task.
use p2p_core.Base.{List, Option, String, [], false, none, some, true, ◌∷◌}
use p2p_core.Net.{SocketAddr, IpAddr}
use p2p_core.Manager.Connect.{established}
use p2p_core.Manager.Links.{rtt_read, connection_closed}
use p2p_core.Manager.Sessions.Relays.{arms, takes}
use p2p_core.Manager.Sessions.{done, failed}
use p2p_core.Manager.Sessions.Hosting.{HostArgs, HostNet}
use p2p_core.Manager.Sessions.Joining.{ClientNet}
use p2p_core.Manager.Sessions.Owned.Runs.{Command, host_task}
use p2p_core.Manager.Flow.{ClientFlow, FlowNet}
use p2p_core.Manager.Flow.Settled.{Settled}

abbrev bound_addr : SocketAddr
bound_addr = record { ip = IpAddr.v4 0 0 0 0; port = 50000 }

abbrev e4mc_args : HostArgs
e4mc_args = record {
  room_name = " Sky ";
  has_password = false;
  local_port = 25565;
  enable_e4mc = true;
  minecraft_version = none;
  force_direct = false;
}

abbrev open_net : HostNet
open_net = record {
  peer_id = "h1";
  bound = done bound_addr;
  version = failed "no status";
  public_addr = failed "timed out";
  interfaces = [];
  endpoint = done tt;
}

abbrev client_net : ClientNet
client_net = record {
  bound = done bound_addr;
  public_addr = failed "timed out";
  local_ip = none;
  endpoint = done tt;
  interfaces = [];
}

abbrev any_address : String → Option SocketAddr
any_address text = some bound_addr

-- A host with e4mc, a connection asked of it, then a client in its place, then a host with two peers:
-- the relay of one is replaced, that of the other gives way to a direct connection.
abbrev some_commands : List Command
some_commands =
    Command.host_room e4mc_args open_net
    ∷ Command.connect "1.2.3.4:5" (some "p1") (some "s1") client_net
    ∷ Command.stop
    ∷ Command.connect "1.2.3.4:5" none none client_net
    ∷ Command.commit
    ∷ Command.host_room e4mc_args open_net
    ∷ host_task (arms "p1" "s1" (done tt))
    ∷ host_task (arms "p1" "s2" (done tt))
    ∷ host_task (arms "0.0.0.0:50000" "s3" (done tt))
    ∷ host_task (takes bound_addr 7 12)
    ∷ []

abbrev client_flow : ClientFlow
client_flow = record {
  peer_addr = bound_addr;
  peer_id = "h1";
  relay_session_id = some "s1";
  use_udp = false;
}

abbrev flow_net : FlowNet
flow_net = record {
  cancelled_in_grace = false;
  cancelled = λ k. false;
  cancelled_at_end = false;
  attempt = λ k. established 7;
  listener = done 40000;
  rtt = 12;
  link = rtt_read 15 ∷ connection_closed false "timed out" ∷ [];
  relay = done 40001;
  relay_end = done tt;
}
