-- ===== src/Tests/Services.antt =====
-- Concrete services with replicas and clients, for src/services/service_info.rs.
use nullnet_grpc.Base.{◌≡◌, refl, none, some, [], ◌∷◌, find, string_eq, arith, unspecified}
use nullnet_grpc.Base.HashMap.{get, contains_key}
use nullnet_grpc.Base.Results.{◌>>=◌}
use nullnet_grpc.Proto.{vlan}
use nullnet_grpc.Orchestrator.{new}
use nullnet_grpc.Clients.{
  Client, ClientInfo, client_eq, new_client, new_service, add_active_chain, new_info,
}
use nullnet_grpc.ServiceInfo.{
  new_replica, Replica, RegisteredServiceInfo, registered, new_service_info, matches_identity,
  add_replica, remove_replicas_on_ip, remove_replica, update_from_file, add_chain, set_latest_now,
  decrement_chain, add_client_to_replica, pick_replica_least_clients,
}
use nullnet_grpc.ServiceInfo.Invariant.{IsValid, operations-IsValid}
use nullnet_grpc.ServiceInfo.Sticky.{first_entry, decrement-add_chain, add_chain_elsewhere}
use nullnet_grpc.Base.{option_eq}
use nullnet_grpc.ServiceInfo.{remove_client}
use nullnet_grpc.ServiceInfo.Membership.{remove_replica-add_replica}
use nullnet_grpc.ServiceInfo.Slots.{remove_client-add_client_to_replica, remove_client_elsewhere}
use nullnet_grpc.GrpcImpl.Linked.{Picks, pick_replica_least_clients-Picks}

abbrev alice : Client
alice = new_client "alice" (some "10.1.1.1")

abbrev web : Client
web = new_service "web" "10.1.1.2" none

-- An entry with two chains.
abbrev busy : ClientInfo
busy =
    add_active_chain 1
      (add_active_chain 1 (new_info 0 "10.1.1.1" unspecified unspecified 101 3 none))

abbrev idle : ClientInfo
idle = new_info 5 "10.1.1.2" unspecified unspecified 102 3 none

abbrev first_replica : Replica
first_replica = record {
  ip = "10.1.1.3";
  port = 80;
  docker_container = none;
  clients = record { clients = (alice, busy) ∷ (web, busy) ∷ [] };
}

abbrev second_replica : Replica
second_replica = record {
  ip = "10.1.1.4";
  port = 80;
  docker_container = some "c";
  clients = record { clients = [] };
}

abbrev db : RegisteredServiceInfo
db = record {
  proxy_deps = [];
  triggers = [];
  timeout = some 60;
  max_networks = none;
  replicas = first_replica ∷ second_replica ∷ [];
}

operations-IsValid_example :
    IsValid (add_replica "10.1.1.5" 81 none (registered db))
    × IsValid (remove_replicas_on_ip "10.1.1.5" (registered db))
    × IsValid (remove_replica "10.1.1.5" none (registered db))
    × IsValid (update_from_file (new_service_info [] [] none none) (registered db))
operations-IsValid_example =
    operations-IsValid (registered db) (new_service_info [] [] none none) "10.1.1.5" 81 none
      (refl, (refl, (refl, tt)))

decrement-add_chain_example :
    decrement_chain vlan alice (add_chain 9 alice db) new ≡ (set_latest_now 9 alice db, new)
unfolding get
decrement-add_chain_example = decrement-add_chain vlan 9 alice db busy new refl (omega arith)

-- A replica in front of the others, without clients.
abbrev front : Replica
front = new_replica "10.1.1.9" 80 none

abbrev longer : RegisteredServiceInfo
longer = record db { replicas = front ∷ db.replicas }

add_chain_elsewhere_example :
    (first_entry web
        (add_chain 9 web (add_client_to_replica "10.1.1.4" (some "c") web idle longer)).replicas
      ≡ some (add_active_chain 9 busy))
    × ((find
            (matches_identity "10.1.1.4" (some "c"))
            (add_chain 9 web (add_client_to_replica "10.1.1.4" (some "c") web idle longer)).replicas
          >>= λ r. get web r.clients.clients)
        ≡ some idle)
unfolding get contains_key
add_chain_elsewhere_example =
    add_chain_elsewhere 9 web idle longer (front ∷ []) first_replica second_replica
      (second_replica ∷ []) busy "10.1.1.4" (some "c") refl refl refl refl refl refl

pick_replica_least_clients-Picks_example : Picks db (pick_replica_least_clients db)
pick_replica_least_clients-Picks_example = pick_replica_least_clients-Picks db

-- The second replica has no client.
pick_replica_least_clients_test : pick_replica_least_clients db ≡ some second_replica
unfolding pick_replica_least_clients
pick_replica_least_clients_test = refl

remove_replica-add_replica_example :
    remove_replica "10.1.1.5" none (add_replica "10.1.1.5" 81 none (registered db)) ≡ registered db
remove_replica-add_replica_example =
    remove_replica-add_replica "10.1.1.5" 81 none (registered db) (refl, (refl, (refl, tt))) refl

abbrev bob : Client
bob = new_client "bob" (some "10.1.1.1")

remove_client-add_client_to_replica_example :
    remove_client bob (add_client_to_replica "10.1.1.4" (some "c") bob idle db) ≡ db
unfolding contains_key get
remove_client-add_client_to_replica_example =
    remove_client-add_client_to_replica "10.1.1.4" (some "c") bob idle db refl

remove_client_elsewhere_example :
    ((find
          (matches_identity "10.1.1.3" none)
          (remove_client web (add_client_to_replica "10.1.1.4" (some "c") web idle longer)).replicas
        >>= λ r. get web r.clients.clients)
      ≡ none)
    × ((find
            (matches_identity "10.1.1.4" (some "c"))
            (remove_client web
              (add_client_to_replica "10.1.1.4" (some "c") web idle longer)).replicas
          >>= λ r. get web r.clients.clients)
        ≡ some idle)
unfolding get contains_key
remove_client_elsewhere_example =
    remove_client_elsewhere "10.1.1.4" (some "c") web idle longer (front ∷ []) first_replica
      second_replica (second_replica ∷ []) busy refl refl refl refl refl refl refl
