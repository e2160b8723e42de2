-- ===== src/GrpcImpl/Channel.antt =====
-- The control channel of a node: `control_channel_impl` with `Orchestrator::add_client`, and the task
-- that reads the node's acknowledgements until the stream ends (src/orchestrator.rs).
pub mod Reconnect
pub mod Gone
use nullnet_grpc.Base.{ℕ, String, Bool, true, Option, none, some, List, [], ◌∷◌, IpAddr}
use nullnet_grpc.Base.Results.{Result, ok, err}
use nullnet_grpc.Proto.{Net}
use nullnet_grpc.Orchestrator.{OutboundStream, Orchestrator, add_client, acknowledge}
use nullnet_grpc.Changes.{World}
use nullnet_grpc.GrpcImpl.ServicesList.{handle_node_disconnect}

-- `mpsc::channel(64)`: nothing is sent yet, and the receiver lives. Its room for 64 messages is not
-- modelled.
abbrev pub new_outbound : OutboundStream
new_outbound = record { is_open = true; messages = [] }

-- The caller's address, and the registration of its channel.
unfoldable pub open_channel : Option IpAddr → World → World × Result (Unit {0})
open_channel none w = (w, err "Could not get remote address for control channel request")
open_channel (some client_ip) w =
    (record w { orchestrator = add_client client_ip new_outbound w.orchestrator }, ok tt)

abbrev pub acknowledge_all : List String → Orchestrator → Orchestrator
acknowledge_all [] o = o
acknowledge_all (msg_id ∷ msg_ids) o = acknowledge_all msg_ids (acknowledge msg_id o)

-- The spawned task: the acknowledgements that the stream brings, then its end.
unfoldable pub serve_channel : Net → ℕ → IpAddr → List String → World → Option World
serve_channel net fuel client_ip inbound w =
    handle_node_disconnect net fuel client_ip
      (record w { orchestrator = acknowledge_all inbound w.orchestrator })
