-- ===== src/Tests/Servers.antt =====
-- A concrete run of the server: a node declares a service, and a chain towards it is set up.
use nullnet_grpc.Base.{◌++◌, refl, String, none, [], ◌∷◌, map, All, string_eq}
use nullnet_grpc.Base.Results.{Result, ok}
use nullnet_grpc.Proto.{vlan}
use nullnet_grpc.ServiceInfo.{ServiceInfo}
use nullnet_grpc.Changes.{on_services}
use nullnet_grpc.GrpcImpl.{add_replicas}
use nullnet_grpc.GrpcImpl.EdgeTask.{starting}
use nullnet_grpc.Input.{ServicesToml, services_map}
use nullnet_grpc.Server.{
  Server, new, start, with_world, run_task, Reachable, here, next, spawn, task, join,
}
use nullnet_grpc.Server.Sound.{SoundServer}
use nullnet_grpc.Server.Reach.{Reachable-Sound}
use nullnet_grpc.Server.Start.{InRange, start-InRange, services_map-Sound}
use nullnet_grpc.Tests.Networks.{crate}
use nullnet_grpc.Tests.Setups.{edge, silent}
use nullnet_grpc.Tests.Configured.{toml}

abbrev begun : Server
begun = new (services_map 30 toml)

-- The replica of "web" joins.
abbrev joined : Server
joined =
    with_world (on_services (add_replicas "10.1.1.2" (("web", 80, none) ∷ [])) begun.world) begun

abbrev spawned : Server
spawned = record joined { tasks = joined.tasks ++ map starting (edge ∷ []) }

-- The first task has reserved its slot.
abbrev running : Server
running = run_task crate vlan 0 silent spawned

run : Reachable crate vlan begun running
run =
    next (next (next here (join "10.1.1.2" (("web", 80, none) ∷ []))) (spawn (edge ∷ [])))
      (task 0 silent)

Reachable-Sound_example : SoundServer vlan running.world.orchestrator.net_id_pool.next_fresh running
Reachable-Sound_example =
    Reachable-Sound crate vlan (services_map 30 toml) running (services_map-Sound 101 30 toml) run

abbrev pub read_text : String → Result String
read_text path = ok "[[services]]"

abbrev pub parse_toml : String → Result ServicesToml
parse_toml text = ok toml

start-InRange_example : All (λ (e : String × ServiceInfo). InRange vlan e.1) running.world.services
unfolding start
start-InRange_example = start-InRange crate vlan read_text parse_toml 30 begun running refl run
