-- ===== src/Tests/Afterwards.antt =====
-- What concrete operations leave: a lost node, an update from a configuration, and setups.
use nullnet_grpc.Base.{
  ◌≡◌, refl, true, none, Bool-cases, inl, inr, ◌==◌, String, some, List, [], ◌∷◌, string_eq, arith,
  unspecified,
}
use mathlib.Core.List.{Memᴰ}
use nullnet_grpc.Changes.Kept.One.{OnReplicas}
use nullnet_grpc.Changes.After.Cleared.{Lacks}
use nullnet_grpc.Timeout.{apply_timeouts}
use nullnet_grpc.Timeout.Expired.{IsExpired, apply_timeouts-cleared}
use nullnet_grpc.Base.HashMap.{modify, get, insert, contains_key}
use nullnet_grpc.Base.Results.{ok}
use nullnet_grpc.Proto.{vlan}
use nullnet_grpc.NetIdPool.{allocate, new as new_pool}
use nullnet_grpc.Orchestrator.{
  Orchestrator, OutboundStream, new, add_client, acknowledged, send_net_setup,
}
use nullnet_grpc.ServiceInfo.{
  ServiceMap, is_client_setup, registered, pick_replica_least_clients, RegisteredServiceInfo,
  Replica, new_replica,
}
use nullnet_grpc.ServiceInfo.Upstreams.{upstream_of}
use nullnet_grpc.Changes.{World}
use nullnet_grpc.Changes.Walk.{Ranked}
use nullnet_grpc.Changes.Walk.Ending.{LoadedRanked}
use nullnet_grpc.Changes.After.Loaded.{SameConfig}
use nullnet_grpc.Input.{ServicesToml, services_map, apply_config_update}
use nullnet_grpc.Input.Follows.{apply_config_update-SameConfig}
use nullnet_grpc.GrpcImpl.{handle_proxy_request, serve_channel, Readings, proxy_edge}
use nullnet_grpc.GrpcImpl.EdgeTask.{starting, reserve, obtain_id, exchange, commit, step_task}
use nullnet_grpc.GrpcImpl.SetUp.{Ready, IsSetUp, turns_of, setup_turns-IsSetUp}
use nullnet_grpc.Net.Sides.{server_address}
use nullnet_grpc.NetIdPool.Invariant.{new-IsValid}
use nullnet_grpc.GrpcImpl.Rollback.{pool_of, SameUse, turns_amid, failed_setup-SameUse}
use nullnet_grpc.Net.{setup}
use nullnet_grpc.GrpcImpl.Session.{HasSession}
use nullnet_grpc.Edge.{RegisteredEdge}
use nullnet_grpc.Clients.{Client, new_client, new_info}
use nullnet_grpc.GrpcImpl.Served.{alone_turns, handle_proxy_request-served}
use nullnet_grpc.GrpcImpl.Early.{handle_proxy_request-reserved}
use nullnet_grpc.GrpcImpl.Channel.Reconnect.{IsUnreachable}
use nullnet_grpc.GrpcImpl.Channel.Gone.{HostsNothing, ServesNone, serve_channel-IsGone}
use nullnet_grpc.Tests.Networks.{crate, crate-IsLawful}
use nullnet_grpc.Tests.Setups.{edge, services, world, session_reg, session_replica, session_world}
use nullnet_grpc.Tests.Walks.{layered_world, rank, rank_bound, layered-Ranked}

abbrev listening : OutboundStream
listening = record { is_open = true; messages = [] }

abbrev up : Orchestrator
up = add_client "10.1.1.1" listening (add_client "10.1.1.2" listening new)

abbrev up_world : World
up_world = record { services = services; orchestrator = up }

abbrev web : RegisteredServiceInfo
web = record {
  proxy_deps = "db" ∷ [];
  triggers = [];
  timeout = some 60;
  max_networks = none;
  replicas = new_replica "10.1.1.2" 80 none ∷ [];
}

abbrev web_replica : Replica
web_replica = new_replica "10.1.1.2" 80 none

abbrev acknowledging : Readings
acknowledging = record {
  now = 5;
  time_ms = 3;
  server_msg_id = "m1";
  server_reply = acknowledged;
  client_msg_id = "m2";
  client_reply = acknowledged;
}

edge-Ready : Ready edge web web_replica up_world
unfolding get new insert contains_key
edge-Ready = record {
  is_registered = refl;
  is_free = refl;
  is_picked = refl;
  server_up = (listening, refl, refl);
  client_up = (listening, refl, refl);
}

abbrev four_turns : List Readings
four_turns = acknowledging ∷ acknowledging ∷ acknowledging ∷ acknowledging ∷ []

setup_turns-IsSetUp_example :
    IsSetUp vlan edge web web_replica 101 up_world
      (turns_of crate vlan four_turns (starting edge, up_world))
unfolding allocate new new_pool
setup_turns-IsSetUp_example =
    setup_turns-IsSetUp crate crate-IsLawful vlan acknowledging acknowledging acknowledging
      acknowledging edge web web_replica 101 up_world edge-Ready refl refl refl

-- "web" without dependencies.
abbrev single : RegisteredServiceInfo
single = record web { proxy_deps = [] }

abbrev pub single_world : World
single_world = record { services = ("web", registered single) ∷ []; orchestrator = up }

abbrev single_edge : RegisteredEdge
single_edge = proxy_edge "web" "10.1.1.1" "alice" "10.1.1.2" none

single-Ready : Ready single_edge single web_replica single_world
unfolding get new insert contains_key
single-Ready = record {
  is_registered = refl;
  is_free = refl;
  is_picked = refl;
  server_up = (listening, refl, refl);
  client_up = (listening, refl, refl);
}

handle_proxy_request-served_example :
    (w' : World) × (handle_proxy_request crate vlan 9 7
        (alone_turns crate vlan acknowledging acknowledging acknowledging acknowledging)
        "web"
        "10.1.1.1"
        "alice"
        single_world
      ≡ some (w', ok (upstream_of (server_address vlan 101 none) web_replica)))
    × HasSession "web"
        (new_client "alice" (some "10.1.1.1"))
        (upstream_of (server_address vlan 101 none) web_replica)
        w'
    × (w'.orchestrator.net_id_pool ≡ (allocate vlan (pool_of single_world)).0)
unfolding allocate new new_pool pick_replica_least_clients
handle_proxy_request-served_example =
    handle_proxy_request-served crate crate-IsLawful vlan "web" "10.1.1.1" "alice" single
      web_replica 101 single_world refl refl refl refl single-Ready refl 9 7 acknowledging
      acknowledging acknowledging acknowledging refl refl

handle_proxy_request-reserved_example :
    (w' : World) × (handle_proxy_request crate vlan 9 7 [] "web" "10.1.1.1" "alice"
        (reserve 5 (proxy_edge "web" "10.1.1.1" "alice" "10.1.1.2" none) world).1
      ≡ some (w', ok (upstream_of unspecified web_replica)))
unfolding get contains_key
handle_proxy_request-reserved_example =
    handle_proxy_request-reserved crate vlan "web" "10.1.1.1" "alice" "10.1.1.2" none web
      web_replica world refl refl refl refl 9 5 7 []

serve_channel-IsGone_example :
    (w' : World) × (serve_channel vlan 2 "10.1.1.2" ("m1" ∷ []) layered_world ≡ some w')
    × Ranked rank w'.services
    × IsUnreachable crate vlan "10.1.1.2" w'.orchestrator
    × HostsNothing "10.1.1.2" w'.services
    × ServesNone "10.1.1.2" w'.services
serve_channel-IsGone_example =
    serve_channel-IsGone crate vlan rank 2 rank_bound "10.1.1.2" ("m1" ∷ []) layered_world
      layered-Ranked

-- "db" gets a timeout of its own, and "web" keeps its dependency.
abbrev edited : ServicesToml
edited = record {
  services =
      (record {
        name = "web";
        timeout = none;
        proxy_dependencies = "db" ∷ [];
        triggers = [];
        max_networks = some 3;
      })
      ∷ (record {
        name = "db";
        timeout = some 20;
        proxy_dependencies = [];
        triggers = [];
        max_networks = none;
      })
      ∷ [];
}

edited-LoadedRanked : LoadedRanked rank (some (services_map 60 edited))
unfolding services_map get insert contains_key
edited-LoadedRanked = (tt, ((ground arith, tt), tt))

apply_config_update-SameConfig_example :
    (w' : World) × (apply_config_update vlan 2 7 (services_map 60 edited) layered_world ≡ some w')
    × SameConfig w'.services (services_map 60 edited)
apply_config_update-SameConfig_example =
    apply_config_update-SameConfig vlan rank 2 rank_bound 7 60 edited layered_world layered-Ranked
      edited-LoadedRanked

-- "alice" has not been seen for 61 seconds.
alice-IsExpired :
    IsExpired 61_000_000_000 "web" (new_client "alice" (some "10.1.1.1")) session_world.services
unfolding get
alice-IsExpired = record {
  reg = session_reg;
  seconds = 59;
  replica = session_replica;
  info = new_info 0 "10.1.1.1" unspecified unspecified 101 3 none;
  is_registered = refl;
  has_timeout = refl;
  is_replica = Memᴰ.head refl;
  is_entry = refl;
  via_proxy = refl;
  is_over = omega arith;
}

session-Ranked : Ranked rank session_world.services
unfolding get
session-Ranked name = elim (Bool-cases ("web" == name)) [
  | inl web_name ↦ rw web_name tt
  | inr other ↦ rw other tt
]

apply_timeouts-cleared_example :
    (w' : World) × (apply_timeouts vlan 2 61_000_000_000 session_world ≡ some w')
    × Ranked rank w'.services
    × ((name : String) (c : Client)
        → IsExpired 61_000_000_000 name c session_world.services
        → OnReplicas (Lacks c) (get name w'.services))
apply_timeouts-cleared_example =
    apply_timeouts-cleared vlan rank 2 rank_bound 61_000_000_000 session_world session-Ranked

-- "web" is gone when its link is to be registered.
abbrev orphaned_turns : List (Readings × ServiceMap)
orphaned_turns =
    (acknowledging, services)
    ∷ (acknowledging, services)
    ∷ (acknowledging, services)
    ∷ (acknowledging, [])
    ∷ (acknowledging, [])
    ∷ []

failed_setup-SameUse_example :
    SameUse vlan
      (pool_of up_world)
      (pool_of (turns_amid crate vlan orphaned_turns (starting edge, up_world)).1)
unfolding turns_amid step_task reserve obtain_id exchange commit send_net_setup setup allocate new
    new_pool get insert is_client_setup modify
failed_setup-SameUse_example =
    failed_setup-SameUse crate vlan orphaned_turns edge up_world (new-IsValid vlan) refl
