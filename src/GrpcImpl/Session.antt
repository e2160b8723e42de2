-- ===== src/GrpcImpl/Session.antt =====
-- Requests of a client that is set up already (src/nullnet_grpc_impl.rs).
use nullnet_grpc.Base.{ℕ, ◌≡◌, refl, ap, ◌∙◌, String, true, some, List, is_some, string_eq, IpAddr}
use nullnet_grpc.Base.HashMap.{get}
use nullnet_grpc.Base.Results.{ok}
use nullnet_grpc.Proto.{Net, Upstream}
use nullnet_grpc.Net.{IpNetworkCrate}
use nullnet_grpc.Clients.{Client, client_eq, new_client, set_latest_now as touch}
use nullnet_grpc.ServiceInfo.{RegisteredServiceInfo, is_client_setup, set_latest_now}
use nullnet_grpc.Changes.Entry.{registered_of, put_registered-same}
use nullnet_grpc.ServiceInfo.Upstreams.{update_first-upstream}
use nullnet_grpc.Changes.{World, get_registered, as_registered, update_registered}
use nullnet_grpc.GrpcImpl.EdgeTask.{Readings}
use nullnet_grpc.GrpcImpl.Decision.{decide_registered, decide_proxy}
use nullnet_grpc.GrpcImpl.Proxy.{perform_proxy, handle_proxy_request}

-- The service is an entry point and is registered, and the client is set up with the upstream.
pub record HasSession (name : String) (client : Client) (upstream : Upstream) (w : World)
    : Type 0 where
  pub reg : RegisteredServiceInfo
  pub is_registered : get_registered name w.services ≡ some reg
  pub entry_point : is_some reg.timeout ≡ true
  pub is_setup : is_client_setup client reg ≡ some upstream

set_latest_now-setup :
    (now : ℕ) (client : Client) (reg : RegisteredServiceInfo)
    → is_client_setup client (set_latest_now now client reg) ≡ is_client_setup client reg
unfolding is_client_setup set_latest_now
set_latest_now-setup now client reg =
    update_first-upstream client (touch now) (λ ci. refl) reg.replicas

module _ (crate : IpNetworkCrate) (net : Net) (name : String) (proxy_ip : IpAddr)
    (client_ip : String) where
  -- A request of a client with a session returns the upstream of the session at once: the
  -- orchestrator stays as it is, and the client has the same session afterwards, so that every
  -- later request returns the same upstream.
  pub handle_proxy_request-HasSession :
      (fuel now : ℕ) (sched : List (ℕ × Readings)) (upstream : Upstream) (w : World)
      → HasSession name (new_client client_ip (some proxy_ip)) upstream w
      → (w' : World) × (handle_proxy_request crate net fuel now sched name proxy_ip client_ip w
          ≡ some (w', ok upstream))
        × (w'.orchestrator ≡ w.orchestrator)
        × HasSession name (new_client client_ip (some proxy_ip)) upstream w'
  unfolding handle_proxy_request perform_proxy decide_proxy set_latest_now
  handle_proxy_request-HasSession fuel now sched upstream w s =
      let client = new_client client_ip (some proxy_ip) in
      let found = registered_of (get name w.services) s.reg s.is_registered in
      (
        record w { services = update_registered name (set_latest_now now client) w.services },
        rw (found, s.entry_point) (rw (s.is_setup, decide_registered) refl),
        refl,
        record {
          reg = set_latest_now now client s.reg;
          is_registered =
              rw (s.is_registered, update_registered)
                (ap as_registered (
                  put_registered-same name s.reg (set_latest_now now client s.reg) w.services
                    s.is_registered));
          entry_point = s.entry_point;
          is_setup = set_latest_now-setup now client s.reg ∙ s.is_setup;
        },
      )
