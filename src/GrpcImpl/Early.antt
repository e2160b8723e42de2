-- ===== src/GrpcImpl/Early.antt =====
-- A request that comes while the first one of the same client is still being set up
-- (src/nullnet_grpc_impl.rs).
use nullnet_grpc.Base.{
  ℕ, ◌≡◌, ap, String, true, false, Option, some, is_some, any, find, unspecified, IpAddr, List,
}
use nullnet_grpc.Base.Results.{ok}
use nullnet_grpc.Proto.{Net}
use nullnet_grpc.Net.{IpNetworkCrate}
use nullnet_grpc.Clients.{new_client, placeholder}
use nullnet_grpc.ServiceInfo.{
  Replica, RegisteredServiceInfo, matches_identity, has_client, add_client_to_replica,
}
use nullnet_grpc.ServiceInfo.Upstreams.{upstream_of, add_client_to_replica-setup}
use nullnet_grpc.Changes.{World, as_registered, get_registered}
use nullnet_grpc.Changes.Entry.{put_registered-same}
use nullnet_grpc.GrpcImpl.EdgeTask.{Readings, reserve}
use nullnet_grpc.GrpcImpl.Proxy.{proxy_edge, handle_proxy_request}
use nullnet_grpc.GrpcImpl.Session.{handle_proxy_request-HasSession}
use nullnet_grpc.GrpcImpl.SetUp.{reserve-free, with_slot}

-- Right after the first turn of the task that sets up the edge from the proxy for a client that no
-- replica has, a second request of the client at the same proxy is answered at once, with the
-- address 0.0.0.0 of the reserved slot, where the service is a registered entry point.
pub handle_proxy_request-reserved :
    (crate : IpNetworkCrate) (net : Net) (name : String) (proxy_ip : IpAddr) (client_ip : String)
    (ip : IpAddr) (docker : Option String) (reg : RegisteredServiceInfo) (r : Replica) (w : World)
    → get_registered name w.services ≡ some reg
    → is_some reg.timeout ≡ true
    → any (has_client (new_client client_ip (some proxy_ip))) reg.replicas ≡ false
    → find (matches_identity ip docker) reg.replicas ≡ some r
    → (fuel now later : ℕ) (sched : List (ℕ × Readings))
    → (w' : World) × (handle_proxy_request crate net fuel later sched name proxy_ip client_ip
          (reserve now (proxy_edge name proxy_ip client_ip ip docker) w).1
        ≡ some (w', ok (upstream_of unspecified r)))
unfolding add_client_to_replica
handle_proxy_request-reserved crate net name proxy_ip client_ip ip docker reg r w found entry free
      picked fuel now later sched =
    let client = new_client client_ip (some proxy_ip) in
    let e = proxy_edge name proxy_ip client_ip ip docker in
    let reg' = add_client_to_replica ip docker client (placeholder now proxy_ip) reg in
    let (w', returns, same, rest) =
      handle_proxy_request-HasSession crate net name proxy_ip client_ip fuel later sched
        (upstream_of unspecified r) (with_slot now e reg w)
        (record {
          reg = reg';
          is_registered = ap as_registered (put_registered-same name reg reg' w.services found);
          entry_point = entry;
          is_setup =
              add_client_to_replica-setup client ip docker reg r free picked
                (placeholder now proxy_ip);
        }) in
    (w', rw (reserve-free now e reg w found free) returns)
