-- ===== src/GrpcImpl/Decision.antt =====
-- The decision of `handle_proxy_request` on a snapshot of the services: to reject the request, keep
-- the client's session, share a network, or set up a new chain.
use nullnet_grpc.Base.{
  ℕ, String, Bool, false, Option, none, some, string_eq, is_some, leb, if◌then◌else◌, IpAddr,
  Ipv4Addr,
}
use nullnet_grpc.Base.HashMap.{get}
use nullnet_grpc.Proto.{Upstream}
use nullnet_grpc.Clients.{Client, new_client}
use nullnet_grpc.ServiceInfo.{
  RegisteredServiceInfo, ServiceInfo, unregistered, registered, ServiceMap, is_client_setup,
  proxy_clients_count, find_reusable_network_on_proxy,
}

-- An existing network that a new client can share.
pub record SharedNetwork : Type 0 where
  pub upstream : Upstream
  pub client_net : Ipv4Addr
  pub server_net : Ipv4Addr
  pub net_id : ℕ
  pub replica_ip : IpAddr
  pub replica_docker : Option String

pub data ProxyAction : Type 0 where
  reject : String → ProxyAction
  keep_session : Upstream → ProxyAction
  share : SharedNetwork → ProxyAction
  set_up : ProxyAction

abbrev pub reached : Option ℕ → ℕ → Bool
reached none count = false
reached (some max) count = leb max count

abbrev pub share_or_set_up :
    Option (Upstream × Ipv4Addr × Ipv4Addr × ℕ × IpAddr × Option String) → ProxyAction
share_or_set_up none = set_up
share_or_set_up (some (upstream, client_net, server_net, net_id, replica_ip, replica_docker)) =
    share (record {
      upstream = upstream;
      client_net = client_net;
      server_net = server_net;
      net_id = net_id;
      replica_ip = replica_ip;
      replica_docker = replica_docker;
    })

abbrev pub decide_registered : IpAddr → Client → RegisteredServiceInfo → ProxyAction
decide_registered proxy_ip proxy_client reg = elim (is_client_setup proxy_client reg) [
  | some upstream ↦ keep_session upstream
  | none ↦
      if reached reg.max_networks (proxy_clients_count reg)
      then share_or_set_up (find_reusable_network_on_proxy proxy_ip reg)
      else set_up
]

abbrev pub decide_service : IpAddr → Client → Option ServiceInfo → ProxyAction
decide_service proxy_ip proxy_client none = reject "Service not found"
decide_service proxy_ip proxy_client (some (unregistered unreg)) =
    if is_some unreg.timeout
    then reject "Service is not registered"
    else reject "Service is not a configured entry point"
decide_service proxy_ip proxy_client (some (registered reg)) =
    if is_some reg.timeout
    then decide_registered proxy_ip proxy_client reg
    else reject "Service is not a configured entry point"

-- The part of `handle_proxy_request` that reads the snapshot.
unfoldable pub decide_proxy : String → IpAddr → String → ServiceMap → ProxyAction
decide_proxy service_name proxy_ip client_ip services =
    decide_service proxy_ip (new_client client_ip (some proxy_ip)) (get service_name services)
