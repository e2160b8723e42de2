-- ===== src/Tests/Walks.antt =====
-- Concrete dependencies for the walks of src/services/changes.rs: a chain of two services, for which
-- the walk ends, and two services that depend on each other, for which it does not.
use nullnet_grpc.Base.{
  ℕ, ◌≡◌, ◌<◌, refl, String, none, some, List, [], ◌∷◌, if◌then◌else◌, ◌==◌, string_eq, eq_iff,
  arith, unspecified, Bool-cases, inl, inr,
}
use nullnet_grpc.Base.HashMap.{get, contains_key}
use nullnet_grpc.Proto.{vlan}
use nullnet_grpc.Orchestrator.{new}
use nullnet_grpc.Clients.{Client, ClientInfo, client_eq, new_service, new_info}
use nullnet_grpc.ServiceInfo.{ServiceInfo, registered, ServiceMap, new_service_info, client_replica}
use nullnet_grpc.Changes.{
  World, ServiceChange, removed, proxy_disconnected, collect_dep_chain_edges, apply_changes,
}
use nullnet_grpc.Changes.Walk.{Ranked, collect_mutual_deps}
use nullnet_grpc.Changes.Walk.Ending.{apply_changes_ends}

abbrev layered : ServiceMap
layered =
    ("web", new_service_info ("db" ∷ []) [] (some 60) none)
    ∷ ("db", new_service_info [] [] none none)
    ∷ []

abbrev pub rank : String → ℕ
rank name = if name == "web" then 1 else 0

-- Only "web" has dependencies, and "db" ranks below it.
pub layered-Ranked : Ranked rank layered
unfolding get
layered-Ranked name = elim (Bool-cases ("web" == name)) [
  | inl web ↦ rw web (ground (arith, eq_iff "web" name, eq_iff name "web"), tt)
  | inr other ↦
      rw other
        (elim (Bool-cases ("db" == name)) [ inl db ↦ rw db tt | inr neither ↦ rw neither tt ])
]

pub rank_bound : (name : String) → rank name < 2
rank_bound name = ground arith

abbrev pub layered_world : World
layered_world = record { services = layered; orchestrator = new }

abbrev changes : List ServiceChange
changes = removed "db" ∷ proxy_disconnected "10.1.1.9" ∷ []

apply_changes_ends_example :
    (w' : World) × (apply_changes vlan 2 changes none layered_world ≡ some w')
    × Ranked rank w'.services
apply_changes_ends_example =
    apply_changes_ends vlan rank 2 rank_bound changes none layered_world layered-Ranked tt

abbrev info : ClientInfo
info = new_info 0 "10.1.1.2" unspecified unspecified 101 3 none

-- A service at `ip` with the dependencies, and an entry of `client`.
abbrev one_replica : String → List String → Client → ServiceInfo
one_replica ip deps client = registered (record {
  proxy_deps = deps;
  triggers = [];
  timeout = some 60;
  max_networks = none;
  replicas =
      (record {
        ip = ip;
        port = 80;
        docker_container = none;
        clients = record { clients = (client, info) ∷ [] };
      })
      ∷ [];
})

abbrev circular : ServiceMap
circular =
    ("web", one_replica "10.1.1.2" ("db" ∷ "api" ∷ []) (new_service "api" "10.1.1.3" none))
    ∷ ("api", one_replica "10.1.1.3" ("web" ∷ []) (new_service "web" "10.1.1.2" none))
    ∷ []

collect_mutual_deps_example : collect_dep_chain_edges 1000 ("web", "10.1.1.2", none) circular ≡ none
unfolding get client_replica contains_key
collect_mutual_deps_example =
    collect_mutual_deps ("web", "10.1.1.2", none) ("api", "10.1.1.3", none) ("db" ∷ []) [] circular
      refl refl refl refl 1000
