-- ===== src/Changes/Detect.antt =====
-- `detect_config_changes`, `detect_services_list_changes` and `detect_node_disconnect_changes`.
use nullnet_grpc.Base.{
  ℕ, String, Bool, true, false, not, ◌&&◌, ◌||◌, Option, none, some, List, [], ◌∷◌, ◌++◌, map, ◌==◌,
  string_eq, option_eq, list_eq, nat_eq, any, all, retain, filter_map, flat_map, length, ltb,
  if◌then◌else◌, IpAddr,
}
use nullnet_grpc.Base.HashMap.{HashMap, get, contains_key, keys}
use nullnet_grpc.Clients.{Client}
use nullnet_grpc.ServiceInfo.{
  Replica, ServiceInfo, unregistered, registered, ServiceMap, proxy_deps, triggers, timeout,
  replicas, expired_proxy_clients, from_secs, has_replica_on_ip, client_keys,
}
use nullnet_grpc.Changes.Defs.{
  ServiceChange, removed, proxy_deps_changed, triggers_changed, reachability_changed,
  replicas_removed, replica_removed, proxy_disconnected, proxy_client_timed_out,
}

-- The `PartialEq` of hash maps: as many entries, and each one found in the other map.
abbrev pub same_triggers : HashMap ℕ (List String) → HashMap ℕ (List String) → Bool
same_triggers a b = length a == length b && all (λ (e : ℕ × List String). get e.0 b == some e.1) a

abbrev pub when {ℓ} : {A : Type ℓ} → Bool → A → List A
when true a = a ∷ []
when false a = []

abbrev pub expired_of : ℕ → ℕ → String → ServiceInfo → List ServiceChange
expired_of now new_timeout name (unregistered unreg) = []
expired_of now new_timeout name (registered reg) =
    map (proxy_client_timed_out name) (expired_proxy_clients now (from_secs new_timeout) reg)

-- Reachability toggled, or the timeout tightened or introduced.
abbrev pub timeout_changes : ℕ → String → ServiceInfo → Option ℕ → Option ℕ → List ServiceChange
timeout_changes now name old_info none none = []
timeout_changes now name old_info none (some old_timeout) = reachability_changed name ∷ []
timeout_changes now name old_info (some new_timeout) none = reachability_changed name ∷ []
timeout_changes now name old_info (some new_timeout) (some old_timeout) =
    if not (new_timeout == old_timeout)
      && (ltb 0 new_timeout && (old_timeout == 0 || ltb new_timeout old_timeout))
    then expired_of now new_timeout name old_info
    else []

abbrev pub service_changes : ℕ → String → ServiceInfo → Option ServiceInfo → List ServiceChange
service_changes now name loaded_info none = []
service_changes now name loaded_info (some old_info) =
    when (not (proxy_deps loaded_info == proxy_deps old_info)) (proxy_deps_changed name)
    ++ (when (not (same_triggers (triggers loaded_info) (triggers old_info)))
          (triggers_changed name)
        ++ timeout_changes now name old_info (timeout loaded_info) (timeout old_info))

unfoldable pub detect_config_changes : ℕ → ServiceMap → ServiceMap → List ServiceChange
detect_config_changes now current loaded =
    map removed (retain (λ name. not (contains_key name loaded)) (keys current))
    ++ flat_map (λ (e : String × ServiceInfo). service_changes now e.0 e.1 (get e.0 current)) loaded

-- One entry of the list that a host sends: a name, a port and a container.
abbrev pub ListedService : Type 0
ListedService = String × ℕ × Option String

abbrev pub is_in_list : String → Replica → List ListedService → Bool
is_in_list name r = any (λ (e : ListedService). e.0 == name && e.2 == r.docker_container)

abbrev pub missing_replica : String → IpAddr → List ListedService → Replica → Option ServiceChange
missing_replica name sender_ip service_list r =
    if r.ip == sender_ip && not (is_in_list name r service_list)
    then some (replica_removed name sender_ip r.docker_container)
    else none

unfoldable pub detect_services_list_changes :
    ServiceMap → IpAddr → List ListedService → List ServiceChange
detect_services_list_changes current sender_ip service_list =
    flat_map
      (λ (e : String × ServiceInfo).
        filter_map (missing_replica e.0 sender_ip service_list) (replicas e.1))
      current

abbrev pub lost_replicas : IpAddr → String × ServiceInfo → Option ServiceChange
lost_replicas ip (name, unregistered unreg) = none
lost_replicas ip (name, registered reg) =
    if has_replica_on_ip ip reg then some (replicas_removed name ip) else none

-- Whether some client of a service comes through the proxy at that address.
abbrev pub has_client_via : IpAddr → ServiceInfo → Bool
has_client_via ip si =
    any (λ (r : Replica). any (λ (c : Client). c.proxy == some ip) (client_keys r)) (replicas si)

unfoldable pub detect_node_disconnect_changes : ServiceMap → IpAddr → List ServiceChange
detect_node_disconnect_changes current disconnected_ip =
    filter_map (lost_replicas disconnected_ip) current
    ++ when (any (λ (e : String × ServiceInfo). has_client_via disconnected_ip e.1) current)
        (proxy_disconnected disconnected_ip)
