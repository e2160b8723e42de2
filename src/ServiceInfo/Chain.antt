-- ===== src/ServiceInfo/Chain.antt =====
-- The linear chains of edges that a setup walks.
use nullnet_grpc.Base.{ℕ, String, Option, none, some, List, [], ◌∷◌, string_eq, nat_eq, IpAddr}
use nullnet_grpc.Base.HashMap.{get}
use mathlib.Core.Option
use nullnet_grpc.Clients.{Client, new_client, new_service}
use nullnet_grpc.Edge.{Edge, new_edge}
use nullnet_grpc.ServiceInfo.Defs.{
  Replica, RegisteredServiceInfo, ServiceInfo, unregistered, registered, ServiceMap,
}
use nullnet_grpc.ServiceInfo.Queries.{pick_replica_least_clients}

abbrev pub replica_end : Option Replica → Option IpAddr × Option String
replica_end none = (none, none)
replica_end (some r) = (some r.ip, r.docker_container)

-- The replica that a chain enters at a dependency, if the dependency is registered.
abbrev pub service_end : Option ServiceInfo → Option IpAddr × Option String
service_end (some (registered reg)) = replica_end (pick_replica_least_clients reg)
service_end (some (unregistered unreg)) = (none, none)
service_end none = (none, none)

abbrev pub dep_end : String → ServiceMap → Option IpAddr × Option String
dep_end dep services = service_end (get dep services)

abbrev pub source_client : String → Option IpAddr → Option String → Client
source_client name (some ip) docker = new_service name ip docker
source_client name none docker = new_client name none

abbrev pub chain_edge : String → Option IpAddr → Option String → String → ServiceMap → Edge
chain_edge name ip docker dep services =
    new_edge ip (source_client name ip docker) docker (dep_end dep services).0 (new_client dep none)
      (dep_end dep services).1

unfoldable pub linear_chain_from :
    List String → String → Option IpAddr → Option String → ServiceMap → List Edge
linear_chain_from [] name ip docker services = []
linear_chain_from (dep ∷ deps) name ip docker services =
    chain_edge name ip docker dep services
    ∷ linear_chain_from deps dep (dep_end dep services).0 (dep_end dep services).1 services

unfoldable pub build_linear_chain :
    List String → String → IpAddr → Option String → ServiceMap → List Edge
unfolding linear_chain_from
build_linear_chain deps service_name service_ip service_docker services =
    linear_chain_from deps service_name (some service_ip) service_docker services

unfoldable pub proxy_dependency_chain :
    RegisteredServiceInfo → String → IpAddr → Option String → ServiceMap → List Edge
unfolding build_linear_chain
proxy_dependency_chain reg service_name service_ip service_docker services =
    build_linear_chain reg.proxy_deps service_name service_ip service_docker services

unfoldable pub backend_dependency_chain :
    RegisteredServiceInfo → String → IpAddr → Option String → ℕ → ServiceMap → Option (List Edge)
unfolding build_linear_chain
backend_dependency_chain reg service_name service_ip service_docker port services =
    Option.map (λ chain. build_linear_chain chain service_name service_ip service_docker services)
      (get port reg.triggers)
