-- ===== src/Tests/Stale.antt =====
-- A network that is torn down between the decision to share it and the act.
use nullnet_grpc.Base.{
  ℕ, ◌≡◌, refl, Ipv4Addr, ipv4_to_string, Bool, true, Option, none, some, [], ◌∷◌, is_some,
}
use nullnet_grpc.Base.HashMap.{get, modify, contains_key, remove, insert}
use nullnet_grpc.Base.Results.{◌>>=◌}
use nullnet_grpc.Proto.{vlan}
use nullnet_grpc.NetIdPool.{allocate, free, new as new_pool}
use nullnet_grpc.Orchestrator.{new, allocate_net_id, send_net_teardown}
use nullnet_grpc.Clients.{Client, new_client, new_info}
use nullnet_grpc.ServiceInfo.{
  RegisteredServiceInfo, registered, is_client_setup, proxy_clients_count,
  find_reusable_network_on_proxy, all_clients_owned, has_clients_with_net_id, remove_client,
  add_chain, add_client_to_replica,
}
use nullnet_grpc.Changes.{
  World, proxy_client_timed_out, apply_changes, get_registered, collect_dep_chain_edges,
}
use nullnet_grpc.GrpcImpl.{SharedNetwork, share, decide_proxy, share_network}

abbrev alice : Client
alice = new_client "alice" (some "10.1.1.1")

abbrev bob : Client
bob = new_client "bob" (some "10.1.1.1")

abbrev address : Ipv4Addr
address = record { o0 = 10; o1 = 0; o2 = 3; o3 = 41 }

-- "alice" has the one network that "web" may have, with the identifier 101.
abbrev reg : RegisteredServiceInfo
reg = record {
  proxy_deps = [];
  triggers = [];
  timeout = some 60;
  max_networks = some 1;
  replicas =
      (record {
        ip = "10.1.1.2";
        port = 80;
        docker_container = none;
        clients = record {
          clients =
              (
                alice,
                record (new_info 0 "10.1.1.1" address address 101 3 none) { active_chains = 1 },
              )
              ∷ [];
        };
      })
      ∷ [];
}

abbrev before : World
before = record {
  services = ("web", registered reg) ∷ [];
  orchestrator = (allocate_net_id vlan new).0;
}

abbrev offer : SharedNetwork
offer = record {
  upstream = record { ip = ipv4_to_string address; port = 80 };
  client_net = address;
  server_net = address;
  net_id = 101;
  replica_ip = "10.1.1.2";
  replica_docker = none;
}

decide_test : decide_proxy "web" "10.1.1.1" "bob" before.services ≡ share offer
unfolding decide_proxy get is_client_setup proxy_clients_count find_reusable_network_on_proxy
decide_test = refl

-- The identifier that the pool gives next, and whether "bob" has a session.
abbrev outcome : World → Option ℕ × Bool
outcome w = (
  (allocate_net_id vlan w.orchestrator).1,
  is_some (get_registered "web" w.services >>= is_client_setup bob),
)

abbrev stale : Option (Option ℕ × Bool)
stale =
    apply_changes vlan 9 (proxy_client_timed_out "web" alice ∷ []) none before
    >>= (λ w. share_network 9 7 "web" "10.1.1.1" bob offer w >>= λ w'. some (outcome w'))

-- "bob" has a session on the network 101, which the pool gives to the next edge.
stale_test : stale ≡ some (some 101, true)
unfolding apply_changes get all_clients_owned collect_dep_chain_edges share_network modify
    has_clients_with_net_id remove_client contains_key remove add_chain add_client_to_replica
    allocate is_client_setup send_net_teardown insert free new new_pool
stale_test = refl
