-- ===== src/Changes/Teardown.antt =====
-- The teardown of chains. Where a walk takes fuel, so does its caller.
use nullnet_grpc.Base.{
  ℕ, String, Bool, false, ◌||◌, Option, none, some, List, [], ◌∷◌, map, ◌==◌, string_eq, nat_eq,
  retain, filter_map, if◌then◌else◌, IpAddr,
}
use nullnet_grpc.Base.HashMap.{insert}
use nullnet_grpc.Base.HashSet
use nullnet_grpc.Base.Results.{◌>>=◌}
use nullnet_grpc.Proto.{Net}
use nullnet_grpc.Orchestrator.{send_net_teardown}
use nullnet_grpc.Clients.{Client}
use nullnet_grpc.ServiceInfo.{
  Replica, RegisteredServiceInfo, ServiceInfo, unregistered, registered, OwnedClient,
  all_clients_owned, decrement_chain, remove_client, has_clients_with_net_id, deps_contain,
  unregister, service_clients_on_ip, service_clients_on_replica,
}
use nullnet_grpc.Changes.Defs.{
  World, ProxyFilter, all_clients, by_ip, by_client, on_replica, on_ip, matches, get_registered,
  put_registered, update_registered, for_each,
}
use nullnet_grpc.Changes.Collect.{
  DepEdge, Hop, collect_dep_chain_edges, collect_backend_chain_edges,
}

abbrev pub replica_ids : Option RegisteredServiceInfo → List (IpAddr × Option String)
replica_ids none = []
replica_ids (some reg) = map (λ (r : Replica). (r.ip, r.docker_container)) reg.replicas

abbrev pub remove_clients : List OwnedClient → RegisteredServiceInfo → RegisteredServiceInfo
remove_clients [] reg = reg
remove_clients (t ∷ ts) reg = remove_clients ts (remove_client t.client reg)

-- Whether a client that is left on the service uses the network.
abbrev pub is_shared : ℕ → Option RegisteredServiceInfo → Bool
is_shared net_id none = false
is_shared net_id (some reg) = has_clients_with_net_id net_id reg

abbrev pub matching : ProxyFilter → RegisteredServiceInfo → List OwnedClient
matching filter reg =
    retain (λ (t : OwnedClient). matches filter t.client t.replica_ip t.replica_docker)
      (all_clients_owned reg)

abbrev pub to_clean_up : String → String × ServiceInfo → Option String
to_clean_up invalidated (name, unregistered unreg) = if invalidated == name then some name else none
to_clean_up invalidated (name, registered reg) =
    if invalidated == name || deps_contain invalidated (registered reg) then some name else none

abbrev pub only_through_for : String → String → Option String
only_through_for invalidated name = if name == invalidated then none else some invalidated

abbrev pub fail_service : String → World → World
fail_service name w = elim (get_registered name w.services) [
  | none ↦ w
  | some reg ↦ record w { services = insert name (unregister reg) w.services }
]

-- The service-to-service clients that the filter picks.
abbrev pub affected_clients : ProxyFilter → RegisteredServiceInfo → List Client
affected_clients (on_ip ip) reg = service_clients_on_ip ip reg
affected_clients (on_replica ip docker) reg = service_clients_on_replica ip docker reg
affected_clients all_clients reg = []
affected_clients (by_ip ip) reg = []
affected_clients (by_client c) reg = []

module _ (net : Net) where
  -- `dep_reg.decrement_chain(&client, orchestrator)` where the dependency is registered.
  unfoldable pub decrement_edge : DepEdge → World → World
  decrement_edge (client, dep_name) w = elim (get_registered dep_name w.services) [
    | none ↦ w
    | some reg ↦
        let (reg', o') = decrement_chain net client reg w.orchestrator in
        record { services = put_registered dep_name reg' w.services; orchestrator = o' }
  ]

  unfoldable pub decrement_edges : List DepEdge → World → World
  unfolding decrement_edge
  decrement_edges [] w = w
  decrement_edges (e ∷ es) w = decrement_edges es (decrement_edge e w)

  unfoldable pub teardown_dep_chain : ℕ → Hop → World → Option World
  unfolding decrement_edges
  teardown_dep_chain fuel here w = do
    edges ← collect_dep_chain_edges fuel here w.services
    some (decrement_edges edges w)

  unfoldable pub teardown_backend_chain : Hop → Option String → World → World
  unfolding decrement_edges
  teardown_backend_chain here only_through w =
      decrement_edges (collect_backend_chain_edges here only_through w.services) w

  unfoldable pub teardown_backend_chains :
      String → List (IpAddr × Option String) → Option String → World → World
  unfolding teardown_backend_chain
  teardown_backend_chains name [] only_through w = w
  teardown_backend_chains name ((ip, docker) ∷ rs) only_through w =
      teardown_backend_chains name rs only_through
        (teardown_backend_chain (name, ip, docker) only_through w)

  unfoldable pub teardown_all_backend_chains_for : String → Option String → World → World
  unfolding teardown_backend_chains
  teardown_all_backend_chains_for name only_through w =
      teardown_backend_chains name (replica_ids (get_registered name w.services)) only_through w

  abbrev pub teardown_network : OwnedClient → World → World
  teardown_network t w = record w {
    orchestrator =
        send_net_teardown net t.info.client_ip t.info.docker_container t.replica_ip t.replica_docker
          t.info.net_id w.orchestrator;
  }

  -- The networks of the removed clients, each once, unless another client shares it.
  unfoldable pub teardown_networks : String → List OwnedClient → List ℕ → World → World
  teardown_networks name [] torn_down w = w
  teardown_networks name (t ∷ ts) torn_down w =
      teardown_networks name ts (HashSet.insert t.info.net_id torn_down) (
        if HashSet.contains t.info.net_id torn_down
          || is_shared t.info.net_id (get_registered name w.services)
        then w
        else teardown_network t w)

  unfoldable pub teardown_chain : ℕ → String → ProxyFilter → World → Option World
  unfolding teardown_dep_chain teardown_networks
  teardown_chain fuel name filter w = elim (get_registered name w.services) [
    | none ↦ some w
    | some reg ↦ do
      let proxy_teardowns = matching filter reg
      w' ←
          for_each
            (λ (t : OwnedClient). teardown_dep_chain fuel (name, t.replica_ip, t.replica_docker))
            proxy_teardowns w
      let services' = update_registered name (remove_clients proxy_teardowns) w'.services
      some (teardown_networks name proxy_teardowns [] (record w' { services = services' }))
  ]

  -- One service of the clean-up: the chains of a dependent only as far as they lead through the
  -- invalidated service.
  abbrev pub teardown_dependent : ℕ → String → String → World → Option World
  teardown_dependent fuel invalidated name w = do
    w' ← teardown_chain fuel name all_clients w
    some (teardown_all_backend_chains_for name (only_through_for invalidated name) w')

  unfoldable pub teardown_invalidated_service : ℕ → String → Bool → World → Option World
  unfolding teardown_chain teardown_all_backend_chains_for
  teardown_invalidated_service fuel invalidated is_failed w = do
    w' ←
        for_each (teardown_dependent fuel invalidated)
          (filter_map (to_clean_up invalidated) w.services) w
    some (if is_failed then fail_service invalidated w' else w')

  -- The chains of the client's source replica that lead through the service.
  abbrev pub teardown_source : ℕ → String → Client → World → Option World
  teardown_source fuel name client w = elim client.replica [
    | none ↦ some w
    | some (src_ip, src_docker) ↦ do
      w' ← teardown_chain fuel client.name (on_replica src_ip src_docker) w
      some (teardown_backend_chain (client.name, src_ip, src_docker) (some name) w')
  ]

  unfoldable pub teardown_partial_replicas : ℕ → String → ProxyFilter → World → Option World
  unfolding teardown_chain teardown_backend_chain
  teardown_partial_replicas fuel name filter w = elim (get_registered name w.services) [
    | none ↦ some w
    | some reg ↦ do
      w' ← for_each (teardown_source fuel name) (affected_clients filter reg) w
      teardown_chain fuel name filter w'
  ]
