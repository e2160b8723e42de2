-- ===== src/Tests/Runs.antt =====
-- Concrete requests, a node's channel and a watch of the configuration.
use nullnet_grpc.Base.{ℕ, ◌≡◌, refl, String, Option, none, some, [], ◌∷◌, arith, inl, inr, IpAddr}
use nullnet_grpc.Base.HashMap.{get, insert, contains_key}
use nullnet_grpc.Proto.{vlan, ProxyRequest, BackendTriggerRequest, Services}
use nullnet_grpc.Changes.{World}
use nullnet_grpc.GrpcImpl.{
  Request, proxy_method, backend_trigger_method, services_list_method, serve_channel, open_channel,
}
use nullnet_grpc.GrpcImpl.Refusals.{
  IsRefused, proxy_method-IsRefused, backend_trigger_method-IsRefused,
}
use nullnet_grpc.GrpcImpl.Channel.Reconnect.{IsReachable, IsUnreachable, reconnect-IsUnreachable}
use nullnet_grpc.Input.Watch.{Watch, WatchEvent, WatchReadings, modified, watch, watch-early}
use nullnet_grpc.Server.Refines.Handlers.{
  IsSound, EndsSound, UpdatesSound, WatchesSound, handlers-IsSound,
}
use nullnet_grpc.Input.Follows.{watch-SameConfig}
use nullnet_grpc.Input.{ServicesToml, services_map}
use nullnet_grpc.Changes.Walk.Ending.{LoadedRanked}
use nullnet_grpc.Changes.After.Loaded.{SameConfig}
use nullnet_grpc.Base.Results.{Result, ok}
use nullnet_grpc.Orchestrator.{new}
use nullnet_grpc.NetIdPool.{new as new_pool}
use nullnet_grpc.NetIdPool.Invariant.{new-IsValid}
use nullnet_grpc.Tests.Afterwards.{single_world}
use nullnet_grpc.Tests.Networks.{crate, crate-IsLawful}
use nullnet_grpc.Tests.Setups.{five_turns, world}
use nullnet_grpc.Tests.Walks.{layered_world, rank, rank_bound, layered-Ranked}
use nullnet_grpc.Tests.Servers.{read_text, parse_toml}

abbrev parse_ip : String → Option IpAddr
parse_ip text = some text

abbrev alice_request : Request ProxyRequest
alice_request = record {
  remote_addr = some "10.1.1.1";
  message = record { client_ip = "10.9.9.9"; service_name = "web" };
}

-- "db" is registered, but no entry point.
abbrev db_request : Request ProxyRequest
db_request = record {
  remote_addr = some "10.1.1.1";
  message = record { client_ip = "10.9.9.9"; service_name = "db" };
}

abbrev trigger_request : ℕ → Request BackendTriggerRequest
trigger_request port = record {
  remote_addr = some "10.1.1.2";
  message = record { service_name = "web"; port = port };
}

abbrev list_request : Request Services
list_request = record {
  remote_addr = some "10.1.1.2";
  message = record {
    services = (record { name = "web"; port = 80; docker_container = none }) ∷ [];
  };
}

reconnect-IsUnreachable_example :
    IsReachable crate vlan "10.1.1.2"
      (open_channel
        (some "10.1.1.2")
        (open_channel (some "10.1.1.2") layered_world).0).0.orchestrator
    × ((w' : World) × (serve_channel vlan 2 "10.1.1.2" []
            (open_channel (some "10.1.1.2") (open_channel (some "10.1.1.2") layered_world).0).0
          ≡ some w')
        × IsUnreachable crate vlan "10.1.1.2" w'.orchestrator)
reconnect-IsUnreachable_example =
    reconnect-IsUnreachable crate vlan rank 2 rank_bound crate-IsLawful "10.1.1.2" [] layered_world
      layered-Ranked

proxy_method-IsRefused_example :
    IsRefused world (proxy_method parse_ip crate vlan 9 7 [] db_request world)
unfolding get
proxy_method-IsRefused_example =
    proxy_method-IsRefused crate vlan [] world parse_ip 9 7 db_request (inr (inr refl))

backend_trigger_method-IsRefused_example :
    IsRefused world (backend_trigger_method crate vlan [] (trigger_request 70_000) world)
backend_trigger_method-IsRefused_example =
    backend_trigger_method-IsRefused crate vlan [] world (trigger_request 70_000)
      (inr (inl (omega arith)))

abbrev at_time : ℕ → WatchReadings
at_time t = record { received = t; read = read_text; now = t; done = t }

abbrev watched : Watch
watched = record { world = layered_world; last_update_time = 1_000_000_000; notified = 1 }

-- An edit 50 milliseconds after the last update, and one a second after it.
abbrev early_edit : WatchEvent × WatchReadings
early_edit = (modified, at_time 1_050_000_000)

abbrev late_edit : WatchEvent × WatchReadings
late_edit = (modified, at_time 2_000_000_000)

-- An edit 50 milliseconds after that.
abbrev soon_edit : WatchEvent × WatchReadings
soon_edit = (modified, at_time 2_050_000_000)

abbrev small_toml : ServicesToml
small_toml = record {
  services =
      (record {
        name = "web";
        timeout = none;
        proxy_dependencies = "db" ∷ [];
        triggers = [];
        max_networks = some 3;
      })
      ∷ (record {
        name = "db";
        timeout = some 20;
        proxy_dependencies = [];
        triggers = [];
        max_networks = none;
      })
      ∷ [];
}

abbrev parse_small : String → Result ServicesToml
parse_small text = ok small_toml

watch-early_example :
    watch parse_toml vlan 2 30 (early_edit ∷ early_edit ∷ []) watched ≡ some watched
watch-early_example =
    watch-early parse_toml vlan 2 30 (early_edit ∷ early_edit ∷ []) watched
      (omega arith, (omega arith, tt))

parsed-LoadedRanked : LoadedRanked rank (some (services_map 30 small_toml))
unfolding services_map get insert contains_key
parsed-LoadedRanked = (tt, ((ground arith, tt), tt))

watch-SameConfig_example :
    (s' : Watch) × (watch parse_small vlan 2 30 (late_edit ∷ soon_edit ∷ []) watched ≡ some s')
    × SameConfig s'.world.services (services_map 30 small_toml)
    × (s'.last_update_time ≡ 2_000_000_000)
    × (s'.notified ≡ 2)
watch-SameConfig_example =
    watch-SameConfig vlan rank 2 rank_bound parse_small 30 (at_time 2_000_000_000) (soon_edit ∷ [])
      watched "[[services]]" small_toml layered-Ranked parsed-LoadedRanked (omega arith) refl refl
      (omega arith, tt)

single-IsSound : IsSound vlan single_world
unfolding new new_pool
single-IsSound = ((((refl, (refl, tt)), (tt, tt)), tt), (new-IsValid vlan, refl))

handlers-IsSound_example :
    EndsSound vlan (proxy_method parse_ip crate vlan 2 7 five_turns alice_request single_world)
    × EndsSound vlan
        (backend_trigger_method crate vlan five_turns (trigger_request 5432) single_world)
    × EndsSound vlan (services_list_method vlan 2 list_request single_world)
    × UpdatesSound vlan (serve_channel vlan 2 "10.1.1.2" ("m1" ∷ []) single_world)
    × WatchesSound vlan (
        watch parse_small vlan 2 30
          (early_edit ∷ late_edit ∷ [])
          (record { world = single_world; last_update_time = 1_000_000_000; notified = 1 }))
handlers-IsSound_example =
    handlers-IsSound crate vlan single_world single-IsSound parse_ip parse_small 2 7 30 five_turns
      alice_request (trigger_request 5432) list_request "10.1.1.2" ("m1" ∷ [])
      (early_edit ∷ late_edit ∷ []) 1_000_000_000 1
