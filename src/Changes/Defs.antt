-- ===== src/Changes/Defs.antt =====
-- The kinds of change, the filter on proxy clients, and the state that a change works on.
use nullnet_grpc.Base.{
  String, Bool, true, ◌&&◌, Option, none, some, List, [], ◌∷◌, ◌==◌, string_eq, option_eq, is_some,
  IpAddr,
}
use nullnet_grpc.Base.HashMap.{get, modify}
use nullnet_grpc.Base.Results.{◌>>=◌}
use nullnet_grpc.Orchestrator.{Orchestrator}
use nullnet_grpc.Clients.{Client, client_eq}
use nullnet_grpc.ServiceInfo.{
  RegisteredServiceInfo, ServiceInfo, unregistered, registered, ServiceMap,
}

-- The map of services behind its lock, and the orchestrator.
pub record World : Type 0 where
  pub services : ServiceMap
  pub orchestrator : Orchestrator

pub data ServiceChange : Type 0 where
  removed : String → ServiceChange
  proxy_deps_changed : String → ServiceChange
  triggers_changed : String → ServiceChange
  reachability_changed : String → ServiceChange
  replicas_removed : String → IpAddr → ServiceChange
  replica_removed : String → IpAddr → Option String → ServiceChange
  proxy_disconnected : IpAddr → ServiceChange
  proxy_client_timed_out : String → Client → ServiceChange

pub data ProxyFilter : Type 0 where
  all_clients : ProxyFilter
  by_ip : IpAddr → ProxyFilter
  by_client : Client → ProxyFilter
  on_replica : IpAddr → Option String → ProxyFilter
  on_ip : IpAddr → ProxyFilter

abbrev pub passes : ProxyFilter → Client → IpAddr → Option String → Bool
passes all_clients client replica_ip replica_docker = true
passes (by_ip ip) client replica_ip replica_docker = client.proxy == some ip
passes (by_client c) client replica_ip replica_docker = client == c
passes (on_replica ip docker) client replica_ip replica_docker =
    replica_ip == ip && replica_docker == docker
passes (on_ip ip) client replica_ip replica_docker = replica_ip == ip

-- `ProxyFilter::matches`.
abbrev pub matches : ProxyFilter → Client → IpAddr → Option String → Bool
matches filter client replica_ip replica_docker =
    is_some client.proxy && passes filter client replica_ip replica_docker

-- `if let Some(ServiceInfo::Registered(reg)) = services.get(name)`.
abbrev pub as_registered : Option ServiceInfo → Option RegisteredServiceInfo
as_registered none = none
as_registered (some (unregistered unreg)) = none
as_registered (some (registered reg)) = some reg

abbrev pub get_registered : String → ServiceMap → Option RegisteredServiceInfo
get_registered name services = as_registered (get name services)

-- A write to the registered service of that name through `get_mut`.
abbrev pub put_registered : String → RegisteredServiceInfo → ServiceMap → ServiceMap
put_registered name reg services = modify name (λ _. registered reg) services

abbrev pub update_registered :
    String → (RegisteredServiceInfo → RegisteredServiceInfo) → ServiceMap → ServiceMap
update_registered name f services = elim (get_registered name services) [
  | none ↦ services
  | some reg ↦ put_registered name (f reg) services
]

-- A loop over a list whose body may run out of fuel.
abbrev pub for_each {ℓ κ} : {A : Type ℓ} {W : Type κ} → (A → W → Option W) → List A → W → Option W
for_each body [] w = some w
for_each body (x ∷ xs) w = body x w >>= for_each body xs
