-- ===== src/Changes/Collect.antt =====
-- The walks along a service's dependency chains that collect the edges to decrement.
use nullnet_grpc.Base.{
  ℕ, zero, suc, String, Bool, true, Option, none, some, List, [], ◌∷◌, ◌++◌, ◌==◌, string_eq, any,
  flat_map, is_empty, unwrap_or, if◌then◌else◌, IpAddr,
}
use nullnet_grpc.Base.HashMap.{get, values}
use nullnet_grpc.Base.Results.{◌>>=◌}
use mathlib.Core.Option
use nullnet_grpc.Clients.{Client, new_service}
use nullnet_grpc.ServiceInfo.{ServiceMap, proxy_deps, triggers, client_replica}
use nullnet_grpc.Changes.Defs.{get_registered}

-- An edge: the client entry, and the service that holds it.
abbrev pub DepEdge : Type 0
DepEdge = Client × String

-- A place on a walk: a service and one replica of it.
abbrev pub Hop : Type 0
Hop = String × IpAddr × Option String

-- The edge from the current replica to a dependency, and the replica that the edge leads to.
unfoldable pub emit_edge_and_probe_hop :
    Hop → String → ServiceMap → DepEdge × Option (IpAddr × Option String)
emit_edge_and_probe_hop (name, ip, docker) dep_name services =
    let client = new_service name ip docker in
    ((client, dep_name), get_registered dep_name services >>= client_replica client)

abbrev pub hop_to : String → IpAddr × Option String → Hop
hop_to dep_name (ip, docker) = (dep_name, ip, docker)

abbrev pub last_of {ℓ} : {A : Type ℓ} → Option A → Option A → Option A
last_of first none = first
last_of first (some later) = some later

-- The `for` loop over the dependencies of one service: an edge to each, and the last hop found.
unfoldable pub walk_level : Hop → List String → ServiceMap → List DepEdge × Option Hop
unfolding emit_edge_and_probe_hop
walk_level here [] services = ([], none)
walk_level here (dep ∷ deps) services =
    let (edge, hop) = emit_edge_and_probe_hop here dep services in
    let (edges, next) = walk_level here deps services in
    (edge ∷ edges, last_of (Option.map (hop_to dep) hop) next)

abbrev pub deps_of : String → ServiceMap → List String
deps_of name services = unwrap_or (Option.map proxy_deps (get name services)) []

-- The `loop`; `none` when the fuel, a bound on its rounds, runs out.
unfoldable pub collect_dep_chain_edges : ℕ → Hop → ServiceMap → Option (List DepEdge)
unfolding walk_level
collect_dep_chain_edges zero here services = none
collect_dep_chain_edges (suc fuel) here services =
    if is_empty (deps_of here.0 services)
    then some []
    else let level = walk_level here (deps_of here.0 services) services in
      elim level.1 [
        | none ↦ some level.0
        | some there ↦
            Option.map (λ edges. level.0 ++ edges) (collect_dep_chain_edges fuel there services)
      ]

-- One backend chain, up to the first dependency that has no entry for the current replica.
unfoldable pub walk_chain : Hop → List String → ServiceMap → List DepEdge
unfolding emit_edge_and_probe_hop
walk_chain here [] services = []
walk_chain here (dep ∷ deps) services =
    let (edge, hop) = emit_edge_and_probe_hop here dep services in
    edge ∷ elim hop [ none ↦ [] | some there ↦ walk_chain (hop_to dep there) deps services ]

abbrev pub goes_through : Option String → List String → Bool
goes_through none chain = true
goes_through (some dep) chain = any (λ d. d == dep) chain

unfoldable pub collect_backend_chain_edges : Hop → Option String → ServiceMap → List DepEdge
unfolding walk_chain
collect_backend_chain_edges here only_through services = elim (get here.0 services) [
  | none ↦ []
  | some si ↦
      flat_map
        (λ chain. if goes_through only_through chain then walk_chain here chain services else [])
        (values (triggers si))
]
