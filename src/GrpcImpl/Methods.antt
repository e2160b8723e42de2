-- ===== src/GrpcImpl/Methods.antt =====
-- The methods of the gRPC service (`impl NullnetGrpc for NullnetGrpcImpl`) and the checks of a
-- request in front of the handlers. The parse of an address's text is a parameter.
use nullnet_grpc.Base.{ℕ, String, Option, none, some, List, IpAddr}
use nullnet_grpc.Base.Results.{Result, ok, err}
use nullnet_grpc.Proto.{
  Net, NetType, vxlan, vlan, Services, ServicesListResponse, ProxyRequest, Upstream,
  BackendTriggerRequest,
}
use nullnet_grpc.Net.{IpNetworkCrate}
use nullnet_grpc.Changes.{World}
use nullnet_grpc.GrpcImpl.EdgeTask.{Readings}
use nullnet_grpc.GrpcImpl.Proxy.{handle_proxy_request}
use nullnet_grpc.GrpcImpl.Backend.{backend_trigger}
use nullnet_grpc.GrpcImpl.ServicesList.{services_list}
use nullnet_grpc.GrpcImpl.Channel.{open_channel}

-- A `tonic::Request`: what the connection says of the caller's address, and the message.
pub record Request (A : Type 0) : Type 0 where
  pub remote_addr : Option IpAddr
  pub message : A

-- `Status::internal`, the only status that the methods return, and `Status::unknown`, which the
-- client's stub makes.
pub data Status : Type 0 where
  internal unknown : String → Status

-- `Result<Response<A>, Status>`.
pub data Rpc (A : Type 0) : Type 0 where
  response : A → Rpc A
  status : Status → Rpc A

abbrev pub with_status : {A : Type 0} → Result A → Rpc A
with_status (ok a) = response a
with_status (err e) = status (internal e)

abbrev pub answer : {A : Type 0} → Option (World × Result A) → Option (World × Rpc A)
answer none = none
answer (some (w, r)) = some (w, with_status r)

abbrev pub net_number : Net → ℕ
net_number vxlan = 0
net_number vlan = 1

abbrev pub network_type : Net → Rpc NetType
network_type net = response (record { net = net_number net })

-- `services_list` with the caller's address, which `services_list_impl` asks for first.
unfoldable pub services_list_method :
    Net → ℕ → Request Services → World → Option (World × Rpc ServicesListResponse)
services_list_method net fuel request w = elim request.remote_addr [
  | none ↦ some (w, status (internal "Could not get remote address for services list request"))
  | some sender_ip ↦ answer (services_list net fuel sender_ip request.message.services w)
]

unfoldable pub control_channel_method : Request (Unit {0}) → World → World × Rpc (Unit {0})
control_channel_method request w =
    let (w', r) = open_channel request.remote_addr w in (w', with_status r)

-- `proxy_impl`: the caller's address, then the client's, whose canonical text names the client.
unfoldable pub proxy_impl :
    (String → Option IpAddr)
    → IpNetworkCrate
    → Net
    → ℕ
    → ℕ
    → List (ℕ × Readings)
    → Request ProxyRequest
    → World
    → Option (World × Result Upstream)
proxy_impl parse crate net fuel now sched request w = elim request.remote_addr [
  | none ↦ some (w, err "Could not get remote address for proxy request")
  | some proxy_ip ↦ elim (parse request.message.client_ip) [
    | none ↦ some (w, err "invalid IP address syntax")
    | some client_ip ↦
        handle_proxy_request crate net fuel now sched request.message.service_name proxy_ip
          client_ip w
  ]
]

unfoldable pub proxy_method :
    (String → Option IpAddr)
    → IpNetworkCrate
    → Net
    → ℕ
    → ℕ
    → List (ℕ × Readings)
    → Request ProxyRequest
    → World
    → Option (World × Rpc Upstream)
unfolding proxy_impl
proxy_method parse crate net fuel now sched request w =
    answer (proxy_impl parse crate net fuel now sched request w)

unfoldable pub backend_trigger_method :
    IpNetworkCrate
    → Net
    → List (ℕ × Readings)
    → Request BackendTriggerRequest
    → World
    → Option (World × Rpc (Unit {0}))
backend_trigger_method crate net sched request w = elim request.remote_addr [
  | none ↦ some (w, status (internal "Could not get remote address for backend trigger"))
  | some sender_ip ↦ answer (
      backend_trigger crate net sched request.message.service_name request.message.port sender_ip w)
]
