-- ===== src/GrpcImpl/ServicesList.antt =====
-- `services_list_impl` with `apply_services_list`, and the disconnection of a node.
use nullnet_grpc.Base.{
  ℕ, ◌^◌, String, Option, none, some, List, [], ◌∷◌, map, string_eq, ltb, leb, is_empty, filter_map,
  if◌then◌else◌, IpAddr,
}
use nullnet_grpc.Base.HashMap.{get, modify, keys}
use nullnet_grpc.Base.HashSet
use nullnet_grpc.Base.Results.{Result, ok, err, ◌>>=◌}
use nullnet_grpc.Proto.{Net, Service, ServiceTrigger, ServicesListResponse}
use nullnet_grpc.Orchestrator.{remove_client as remove_channel}
use nullnet_grpc.ServiceInfo.{ServiceMap, add_replica, triggers}
use nullnet_grpc.Changes.{
  World, ListedService, detect_services_list_changes, detect_node_disconnect_changes, apply_changes,
  on_services,
}

-- `u16::try_from(s.port)` for each service; one port out of range fails the request.
unfoldable pub listed_services : List Service → Result (List ListedService)
listed_services [] = ok []
listed_services (s ∷ ss) =
    let rest = listed_services ss in
    if ltb s.port (2 ^ 16)
    then elim rest [ ok l ↦ ok ((s.name, s.port, s.docker_container) ∷ l) | err e ↦ err e ]
    else err "out of range integral type conversion attempted"

-- `entry(name).and_modify(add_replica)`: a service that is not configured is passed over.
unfoldable pub add_replicas : IpAddr → List ListedService → ServiceMap → ServiceMap
add_replicas sender_ip [] services = services
add_replicas sender_ip ((name, port, docker_container) ∷ l) services =
    add_replicas sender_ip l (modify name (add_replica sender_ip port docker_container) services)

unfoldable pub apply_services_list : Net → ℕ → IpAddr → List ListedService → World → Option World
unfolding add_replicas
apply_services_list net fuel sender_ip service_list w = do
  w' ←
      apply_changes net fuel (detect_services_list_changes w.services sender_ip service_list) none w
  some (on_services (add_replicas sender_ip service_list) w')

-- `sort_unstable` on numbers, as an insertion sort.
unfoldable pub insert_sorted : ℕ → List ℕ → List ℕ
insert_sorted a [] = a ∷ []
insert_sorted a (x ∷ xs) = if leb a x then a ∷ x ∷ xs else x ∷ insert_sorted a xs

unfoldable pub sort : List ℕ → List ℕ
unfolding insert_sorted
sort [] = []
sort (x ∷ xs) = insert_sorted x (sort xs)

-- The trigger ports of one service, ascending; none for a service without triggers.
unfoldable pub service_trigger : ServiceMap → String → Option ServiceTrigger
unfolding sort
service_trigger services name = do
  si ← get name services
  if is_empty (triggers si)
      then none
      else some (record { service_name = name; ports = sort (keys (triggers si)) })

-- `remote_addr` of the request, its services, and the reply.
unfoldable pub services_list :
    Net → ℕ → IpAddr → List Service → World → Option (World × Result ServicesListResponse)
unfolding listed_services apply_services_list service_trigger
services_list net fuel sender_ip services w = elim (listed_services services) [
  | err e ↦ some (w, err e)
  | ok l ↦ do
    w' ← apply_services_list net fuel sender_ip l w
    some (
      w',
      ok (record {
        service_triggers =
            filter_map (service_trigger w'.services)
              (HashSet.collect (map (λ (e : ListedService). e.0) l));
      }),
    )
]

-- `Orchestrator::handle_node_disconnect`.
unfoldable pub handle_node_disconnect : Net → ℕ → IpAddr → World → Option World
handle_node_disconnect net fuel client_ip w =
    let w' : World = record w { orchestrator = remove_channel client_ip w.orchestrator } in
    apply_changes net fuel (detect_node_disconnect_changes w'.services client_ip) none w'
