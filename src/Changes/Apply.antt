-- ===== src/Changes/Apply.antt =====
-- `apply_changes`.
use nullnet_grpc.Base.{
  ℕ, String, Bool, true, false, Option, none, some, List, [], ◌∷◌, map, ◌==◌, string_eq, nat_eq,
  all, retain, length, if◌then◌else◌, IpAddr,
}
use nullnet_grpc.Base.HashMap.{contains_key, insert, modify, remove, keys}
use nullnet_grpc.Base.Results.{◌>>=◌}
use nullnet_grpc.Proto.{Net}
use nullnet_grpc.ServiceInfo.{
  Replica, RegisteredServiceInfo, ServiceInfo, ServiceMap, remove_replicas_on_ip, remove_replica,
  update_from_file,
}
use nullnet_grpc.Changes.Defs.{
  World, ServiceChange, removed, proxy_deps_changed, triggers_changed, reachability_changed,
  replicas_removed, replica_removed, proxy_disconnected, proxy_client_timed_out, all_clients, by_ip,
  by_client, on_replica, on_ip, get_registered, for_each,
}
use nullnet_grpc.Changes.Detect.{has_client_via}
use nullnet_grpc.Changes.Teardown.{
  teardown_chain, teardown_backend_chain, teardown_backend_chains, teardown_all_backend_chains_for,
  teardown_invalidated_service, teardown_partial_replicas,
}

-- Whether all replicas stand on the address.
abbrev pub all_on_ip : IpAddr → Option RegisteredServiceInfo → Bool
all_on_ip ip none = false
all_on_ip ip (some reg) = all (λ (r : Replica). r.ip == ip) reg.replicas

abbrev pub has_one_replica : Option RegisteredServiceInfo → Bool
has_one_replica none = false
has_one_replica (some reg) = length reg.replicas == 1

abbrev pub ids_on_ip : IpAddr → Option RegisteredServiceInfo → List (IpAddr × Option String)
ids_on_ip ip none = []
ids_on_ip ip (some reg) =
    map (λ (r : Replica). (ip, r.docker_container))
      (retain (λ (r : Replica). r.ip == ip) reg.replicas)

abbrev pub on_services : (ServiceMap → ServiceMap) → World → World
on_services f w = record w { services = f w.services }

abbrev pub services_via : IpAddr → ServiceMap → List String
services_via ip services =
    keys (retain (λ (e : String × ServiceInfo). has_client_via ip e.1) services)

-- `entry(name).and_modify(update_from_file).or_insert(loaded)` for each loaded service.
unfoldable pub update_all : ServiceMap → ServiceMap → ServiceMap
update_all [] services = services
update_all ((name, loaded_info) ∷ loaded) services = update_all loaded (
    if contains_key name services
    then modify name (update_from_file loaded_info) services
    else insert name loaded_info services)

abbrev pub update_loaded : Option ServiceMap → World → World
update_loaded none w = w
update_loaded (some loaded) w = on_services (update_all loaded) w

module _ (net : Net) where
  unfoldable pub apply_change : ℕ → ServiceChange → World → Option World
  unfolding teardown_chain teardown_backend_chain teardown_backend_chains
      teardown_all_backend_chains_for teardown_invalidated_service teardown_partial_replicas
  apply_change fuel (removed name) w = do
    w' ← teardown_invalidated_service net fuel name true w
    some (on_services (remove name) w')
  apply_change fuel (proxy_deps_changed name) w = teardown_invalidated_service net fuel name false w
  apply_change fuel (triggers_changed name) w =
      some (teardown_all_backend_chains_for net name none w)
  apply_change fuel (reachability_changed name) w = do
    w' ← teardown_chain net fuel name all_clients w
    some (teardown_all_backend_chains_for net name none w')
  apply_change fuel (replicas_removed name ip) w =
      if all_on_ip ip (get_registered name w.services)
      then teardown_invalidated_service net fuel name true w
      else do
        let ids = ids_on_ip ip (get_registered name w.services)
        w' ←
            teardown_partial_replicas net fuel name (on_ip ip)
              (teardown_backend_chains net name ids none w)
        some (on_services (modify name (remove_replicas_on_ip ip)) w')
  apply_change fuel (replica_removed name ip docker_container) w =
      if has_one_replica (get_registered name w.services)
      then teardown_invalidated_service net fuel name true w
      else do
        w' ←
            teardown_partial_replicas net fuel name (on_replica ip docker_container)
              (teardown_backend_chain net (name, ip, docker_container) none w)
        some (on_services (modify name (remove_replica ip docker_container)) w')
  apply_change fuel (proxy_disconnected ip) w =
      for_each (λ name. teardown_chain net fuel name (by_ip ip)) (services_via ip w.services) w
  apply_change fuel (proxy_client_timed_out name client) w =
      teardown_chain net fuel name (by_client client) w

  unfoldable pub apply_changes : ℕ → List ServiceChange → Option ServiceMap → World → Option World
  unfolding apply_change update_all
  apply_changes fuel changes loaded_services w = do
    w' ← for_each (apply_change fuel) changes w
    some (update_loaded loaded_services w')
