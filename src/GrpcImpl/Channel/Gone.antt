-- ===== src/GrpcImpl/Channel/Gone.antt =====
-- A node after its stream has ended (src/orchestrator.rs, src/services/changes.rs).
use nullnet_grpc.Base.{ℕ, String, ◌≡◌, ◌<◌, some, List, string_eq, IpAddr, subst}
use nullnet_grpc.Base.HashMap.{get}
use nullnet_grpc.Proto.{Net}
use nullnet_grpc.Net.{IpNetworkCrate}
use nullnet_grpc.Orchestrator.{remove_client}
use nullnet_grpc.ServiceInfo.{ServiceMap}
use nullnet_grpc.Changes.{World}
use nullnet_grpc.Changes.Walk.{Ranked}
use nullnet_grpc.Changes.Kept.{Result}
use nullnet_grpc.Changes.Kept.One.{OnReplicas}
use nullnet_grpc.Clients.{Client}
use nullnet_grpc.Changes.After.Cleared.{Lacks}
use nullnet_grpc.Changes.After.Proxied.{disconnect-Lacks}
use nullnet_grpc.Changes.After.Lost.{IsOff, disconnect-IsOff}
use nullnet_grpc.GrpcImpl.ServicesList.{handle_node_disconnect}
use nullnet_grpc.GrpcImpl.Channel.{acknowledge_all, serve_channel}
use nullnet_grpc.GrpcImpl.Channel.Reconnect.{IsUnreachable, serve_channel-IsUnreachable}

-- No service has a replica on the node.
abbrev pub HostsNothing : IpAddr → ServiceMap → Type 0
HostsNothing ip services = (name : String) → OnReplicas (IsOff ip) (get name services)

-- No replica of a service has a client that came through the node.
abbrev pub ServesNone : IpAddr → ServiceMap → Type 0
ServesNone ip services =
    (name : String) (c : Client) → c.proxy ≡ some ip → OnReplicas (Lacks c) (get name services)

-- Where the proxy dependencies are ranked and the fuel is enough, the end of a node's stream is
-- handled, whatever the stream brought before, and afterwards the dependencies are still ranked, no
-- setup reaches the node, no service has a replica on it, and none has a client that came through it.
pub serve_channel-IsGone :
    (crate : IpNetworkCrate) (net : Net) (rank : String → ℕ) (fuel : ℕ)
    (enough : (name : String) → rank name < fuel) (ip : IpAddr) (inbound : List String) (w : World)
    → Ranked rank w.services
    → (w' : World) × (serve_channel net fuel ip inbound w ≡ some w')
      × Ranked rank w'.services
      × IsUnreachable crate net ip w'.orchestrator
      × HostsNothing ip w'.services
      × ServesNone ip w'.services
unfolding serve_channel handle_node_disconnect
serve_channel-IsGone crate net rank fuel enough ip inbound w r =
    let (w', e, r', u) = serve_channel-IsUnreachable crate net rank fuel enough ip inbound w r in
    let start : World = record {
      services = w.services;
      orchestrator = remove_client ip (acknowledge_all inbound w.orchestrator);
    } in
    (
      w',
      e,
      r',
      u,
      λ name.
          subst (Result (λ v. OnReplicas (IsOff ip) (get name v.services))) e
            (disconnect-IsOff net fuel name ip start),
      λ name c via.
          subst (Result (λ v. OnReplicas (Lacks c) (get name v.services))) e
            (disconnect-Lacks ip c via net fuel name start),
    )
