-- ===== src/ServiceInfo/Updates.antt =====
-- The operations of `ServiceInfo` and `RegisteredServiceInfo` that change a service.
use nullnet_grpc.Base.{
  ℕ, ◌++◌, String, Bool, not, Option, none, some, List, [], ◌∷◌, ◌==◌, string_eq, option_eq, nat_eq,
  retain, is_empty, any, if◌then◌else◌, IpAddr,
}
use nullnet_grpc.Base.HashMap.{get, modify, remove}
use nullnet_grpc.Proto.{Net}
use nullnet_grpc.Orchestrator.{Orchestrator, send_net_teardown}
use nullnet_grpc.Clients.{
  Client, ClientInfo, client_eq, add_client, add_active_chain, set_latest_now as touch,
  remove_active_chains,
}
use nullnet_grpc.ServiceInfo.Defs.{
  Replica, RegisteredServiceInfo, ServiceInfo, unregistered, registered, new_replica,
  new_service_info, matches_identity, proxy_deps, triggers, timeout, max_networks,
}
use nullnet_grpc.ServiceInfo.Queries.{has_client}

-- `iter_mut().find(p)` with a write: the first element that passes is changed, if there is one.
abbrev pub update_first {ℓ} : {A : Type ℓ} → (A → Bool) → (A → A) → List A → List A
update_first p f [] = []
update_first p f (x ∷ xs) = if p x then f x ∷ xs else x ∷ update_first p f xs

abbrev pub map_clients : Client → (ClientInfo → ClientInfo) → Replica → Replica
map_clients client f r = record r {
  clients = record { clients = modify client f r.clients.clients };
}

abbrev pub drop_client : Client → Replica → Replica
drop_client client r = record r { clients = record { clients = remove client r.clients.clients } }

unfoldable pub add_replica : IpAddr → ℕ → Option String → ServiceInfo → ServiceInfo
add_replica ip port docker_container (unregistered unreg) = registered (record {
  proxy_deps = unreg.proxy_deps;
  triggers = unreg.triggers;
  timeout = unreg.timeout;
  max_networks = unreg.max_networks;
  replicas = new_replica ip port docker_container ∷ [];
})
add_replica ip port docker_container (registered reg) = registered (record reg {
  replicas =
      if any (matches_identity ip docker_container) reg.replicas
      then update_first (matches_identity ip docker_container) (λ r. record r { port = port })
          reg.replicas
      else reg.replicas ++ new_replica ip port docker_container ∷ [];
})

-- The service without its replicas, as `UnregisteredServiceInfo::new` makes it of the other fields.
abbrev pub unregister : RegisteredServiceInfo → ServiceInfo
unregister reg = new_service_info reg.proxy_deps reg.triggers reg.timeout reg.max_networks

abbrev pub keep_replicas : RegisteredServiceInfo → List Replica → ServiceInfo
keep_replicas reg kept =
    if is_empty kept then unregister reg else registered (record reg { replicas = kept })

unfoldable pub remove_replicas_on_ip : IpAddr → ServiceInfo → ServiceInfo
remove_replicas_on_ip ip (unregistered unreg) = unregistered unreg
remove_replicas_on_ip ip (registered reg) =
    keep_replicas reg (retain (λ (r : Replica). not (r.ip == ip)) reg.replicas)

unfoldable pub remove_replica : IpAddr → Option String → ServiceInfo → ServiceInfo
remove_replica ip docker_container (unregistered unreg) = unregistered unreg
remove_replica ip docker_container (registered reg) =
    keep_replicas reg
      (retain (λ (r : Replica). not (matches_identity ip docker_container r)) reg.replicas)

unfoldable pub update_from_file : ServiceInfo → ServiceInfo → ServiceInfo
update_from_file loaded (unregistered unreg) = unregistered (record {
  proxy_deps = proxy_deps loaded;
  triggers = triggers loaded;
  timeout = timeout loaded;
  max_networks = max_networks loaded;
})
update_from_file loaded (registered reg) = registered (record {
  proxy_deps = proxy_deps loaded;
  triggers = triggers loaded;
  timeout = timeout loaded;
  max_networks = max_networks loaded;
  replicas = reg.replicas;
})

unfoldable pub add_chain : ℕ → Client → RegisteredServiceInfo → RegisteredServiceInfo
add_chain now client reg = record reg {
  replicas =
      update_first (has_client client) (map_clients client (add_active_chain now)) reg.replicas;
}

unfoldable pub set_latest_now : ℕ → Client → RegisteredServiceInfo → RegisteredServiceInfo
set_latest_now now client reg = record reg {
  replicas = update_first (has_client client) (map_clients client (touch now)) reg.replicas;
}

unfoldable pub add_client_to_replica :
    IpAddr → Option String → Client → ClientInfo → RegisteredServiceInfo → RegisteredServiceInfo
add_client_to_replica replica_ip replica_docker client client_info reg = record reg {
  replicas =
      update_first (matches_identity replica_ip replica_docker)
        (λ r. record r { clients = add_client client client_info r.clients }) reg.replicas;
}

unfoldable pub remove_client : Client → RegisteredServiceInfo → RegisteredServiceInfo
remove_client client reg = record reg {
  replicas = update_first (has_client client) (drop_client client) reg.replicas;
}

module _ (net : Net) where
  abbrev pub teardown_entry : Replica → ClientInfo → Orchestrator → Orchestrator
  teardown_entry r ci o =
      send_net_teardown net ci.client_ip ci.docker_container r.ip r.docker_container ci.net_id o

  -- One chain less on the entry that `get` found on replica `r`: at 0 the entry goes, and its
  -- network is torn down.
  abbrev pub decrement_entry : Client → Replica → ClientInfo → Orchestrator → Replica × Orchestrator
  decrement_entry client r ci o =
      let ci' = remove_active_chains 1 ci in
      if ci'.active_chains == 0
      then (drop_client client r, teardown_entry r ci' o)
      else (map_clients client (remove_active_chains 1) r, o)

  unfoldable pub decrement_first :
      Client → List Replica → Orchestrator → List Replica × Orchestrator
  decrement_first client [] o = ([], o)
  decrement_first client (r ∷ rs) o =
      let rest = decrement_first client rs o in
      elim (get client r.clients.clients) [
        | none ↦ (r ∷ rest.0, rest.1)
        | some ci ↦ let (r', o') = decrement_entry client r ci o in (r' ∷ rs, o')
      ]

  unfoldable pub decrement_chain :
      Client → RegisteredServiceInfo → Orchestrator → RegisteredServiceInfo × Orchestrator
  unfolding decrement_first
  decrement_chain client reg o =
      let (rs, o') = decrement_first client reg.replicas o in (record reg { replicas = rs }, o')
