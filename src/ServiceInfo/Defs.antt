-- ===== src/ServiceInfo/Defs.antt =====
-- The types of src/services/service_info.rs, and the fields that both kinds of service have.
use nullnet_grpc.Base.{
  ℕ, String, Bool, ◌&&◌, ◌||◌, Option, List, [], ◌==◌, string_eq, option_eq, any, flat_map, IpAddr,
}
use nullnet_grpc.Base.HashMap.{HashMap, values}
use nullnet_grpc.Clients.{Clients}

pub record Replica : Type 0 where
  pub ip : IpAddr
  pub port : ℕ
  pub docker_container : Option String
  pub clients : Clients

-- `Replica::new`.
abbrev pub new_replica : IpAddr → ℕ → Option String → Replica
new_replica ip port docker_container = record {
  ip = ip;
  port = port;
  docker_container = docker_container;
  clients = record { clients = [] };
}

abbrev pub matches_identity : IpAddr → Option String → Replica → Bool
matches_identity ip docker_container r = r.ip == ip && r.docker_container == docker_container

pub record UnregisteredServiceInfo : Type 0 where
  pub proxy_deps : List String
  pub triggers : HashMap ℕ (List String)
  pub timeout : Option ℕ
  pub max_networks : Option ℕ

pub record RegisteredServiceInfo : Type 0 where
  pub proxy_deps : List String
  pub triggers : HashMap ℕ (List String)
  pub timeout : Option ℕ
  pub max_networks : Option ℕ
  pub replicas : List Replica

pub data ServiceInfo : Type 0 where
  unregistered : UnregisteredServiceInfo → ServiceInfo
  registered : RegisteredServiceInfo → ServiceInfo

-- The map of services by name that the server keeps.
abbrev pub ServiceMap : Type 0
ServiceMap = HashMap String ServiceInfo

-- `ServiceInfo::new`.
abbrev pub new_service_info :
    List String → HashMap ℕ (List String) → Option ℕ → Option ℕ → ServiceInfo
new_service_info proxy_deps triggers timeout max_networks = unregistered (record {
  proxy_deps = proxy_deps;
  triggers = triggers;
  timeout = timeout;
  max_networks = max_networks;
})

abbrev pub proxy_deps : ServiceInfo → List String
proxy_deps (unregistered unreg) = unreg.proxy_deps
proxy_deps (registered reg) = reg.proxy_deps

abbrev pub triggers : ServiceInfo → HashMap ℕ (List String)
triggers (unregistered unreg) = unreg.triggers
triggers (registered reg) = reg.triggers

abbrev pub timeout : ServiceInfo → Option ℕ
timeout (unregistered unreg) = unreg.timeout
timeout (registered reg) = reg.timeout

abbrev pub max_networks : ServiceInfo → Option ℕ
max_networks (unregistered unreg) = unreg.max_networks
max_networks (registered reg) = reg.max_networks

abbrev pub replicas : ServiceInfo → List Replica
replicas (unregistered unreg) = []
replicas (registered reg) = reg.replicas

unfoldable pub deps_contain : String → ServiceInfo → Bool
deps_contain other si =
    any (λ d. d == other) (proxy_deps si)
    || any (λ d. d == other) (flat_map (λ chain. chain) (values (triggers si)))
