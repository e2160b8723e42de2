-- ===== src/Server/Refines/Updates.antt =====
-- Services lists, lost nodes, timeouts and configuration updates as runs of the transition system
-- (src/nullnet_grpc_impl.rs, src/orchestrator.rs, src/timeout.rs, src/services/input.rs).
use nullnet_grpc.Base.{
  ℕ, String, Option, none, some, List, [], ◌∷◌, inl, inr, Bool-cases, IpAddr, Option-cases,
  is_empty,
}
use nullnet_grpc.Base.Results.{Result-cases}
use nullnet_grpc.Proto.{Net, Services, Service}
use nullnet_grpc.Net.{IpNetworkCrate}
use nullnet_grpc.Orchestrator.{remove_client}
use nullnet_grpc.Changes.{
  World, apply_changes, detect_services_list_changes, detect_node_disconnect_changes,
  detect_config_changes,
}
use nullnet_grpc.GrpcImpl.{
  SharedNetwork, Request, services_list_method, listed_services, services_list, apply_services_list,
  handle_node_disconnect, acknowledge_all, serve_channel,
}
use nullnet_grpc.Input.{ServicesToml, services_map, apply_config_update}
use nullnet_grpc.Timeout.{apply_timeouts, collect_timed_out_clients}
use nullnet_grpc.Server.{Server, Reachable, here, next, change, join, acknowledge, disconnect}
use nullnet_grpc.Server.Start.{services_map-Sound}
use nullnet_grpc.Server.Refines.{Refines, Reachable-trans}
use nullnet_grpc.Server.Refines.Proxy.{idle, answer-Refines, stays}

-- The world that a run ends with, if it ends, is one that the server reaches.
abbrev pub Updates : IpNetworkCrate → Net → Server → Option World → Type 0
Updates crate net s none = Unit {0}
Updates crate net s (some w) = Reachable crate net s (record s { world = w })

module _ (crate : IpNetworkCrate) (net : Net) where
  disconnect-Updates :
      (fuel : ℕ) (ip : IpAddr) (s : Server)
      → Updates crate net s (handle_node_disconnect net fuel ip s.world)
  unfolding handle_node_disconnect
  disconnect-Updates fuel ip s =
      let w : World = record {
        services = s.world.services;
        orchestrator = remove_client ip s.world.orchestrator;
      } in
      let changes = detect_node_disconnect_changes w.services ip in
      elim (Option-cases (apply_changes net fuel changes none w)) [
        | inl out ↦ rw out tt
        | inr (w', done) ↦
            rw done (next (next here (disconnect ip)) (change fuel changes none w' tt done))
      ]

  acknowledged : List String → Server → Server
  acknowledged msg_ids s = record s {
    world = record s.world { orchestrator = acknowledge_all msg_ids s.world.orchestrator };
  }

  acknowledge_all-Reachable :
      (msg_ids : List String) (s : Server) → Reachable crate net s (acknowledged msg_ids s)
  unfolding acknowledged
  acknowledge_all-Reachable [] s = here
  acknowledge_all-Reachable (msg_id ∷ msg_ids) s =
      Reachable-trans crate net (next here (acknowledge msg_id))
        (acknowledge_all-Reachable msg_ids _)

  Updates-trans :
      (s : Server) (v : World) (m : Option World)
      → Reachable crate net s (record s { world = v })
      → Updates crate net (record s { world = v }) m
      → Updates crate net s m
  Updates-trans s v none r u = tt
  Updates-trans s v (some w) r u = Reachable-trans crate net r u

  -- If serving a node's channel ends, from its acknowledgements until its stream is over and the
  -- loss of the node is handled, then the server reaches the world that it ends with, from any
  -- state, whose tasks and offers stay.
  pub serve_channel-Updates :
      (fuel : ℕ) (ip : IpAddr) (inbound : List String) (s : Server)
      → Updates crate net s (serve_channel net fuel ip inbound s.world)
  unfolding serve_channel acknowledged
  serve_channel-Updates fuel ip inbound s =
      Updates-trans s (acknowledged inbound s).world _ (acknowledge_all-Reachable inbound s)
        (disconnect-Updates fuel ip (acknowledged inbound s))

  -- If a round of the timeouts ends, then the server reaches the world that it ends with.
  apply_timeouts-Updates :
      (fuel now : ℕ) (s : Server) → Updates crate net s (apply_timeouts net fuel now s.world)
  unfolding apply_timeouts
  apply_timeouts-Updates fuel now s =
      let changes = collect_timed_out_clients now s.world.services in
      elim (Bool-cases (is_empty changes)) [
        | inl none_out ↦ rw (none_out, apply_timeouts) here
        | inr some_out ↦ elim (Option-cases (apply_changes net fuel changes none s.world)) [
          | inl out ↦ rw (some_out, apply_timeouts) (rw out tt)
          | inr (w', done) ↦
              rw (some_out, apply_timeouts)
                (rw done (next here (change fuel changes none w' tt done)))
        ]
      ]

  -- If an update from a changed configuration ends, then the server reaches the world that it ends
  -- with.
  apply_config_update-Updates :
      (fuel now default_timeout : ℕ) (toml : ServicesToml) (s : Server)
      → Updates crate net s
          (apply_config_update net fuel now (services_map default_timeout toml) s.world)
  unfolding apply_config_update
  apply_config_update-Updates fuel now default_timeout toml s =
      let loaded = services_map default_timeout toml in
      let changes = detect_config_changes now s.world.services loaded in
      elim (Option-cases (apply_changes net fuel changes (some loaded) s.world)) [
        | inl out ↦ rw out tt
        | inr (w', done) ↦ rw done (
            next here (
              change fuel changes (some loaded) w' (services_map-Sound 101 default_timeout toml)
                done))
      ]

  services_list-Refines :
      (fuel : ℕ) (ip : IpAddr) (services : List Service) (w : World) (offers : List SharedNetwork)
      → Refines crate net (idle w offers) (services_list net fuel ip services w)
  unfolding services_list apply_services_list
  services_list-Refines fuel ip services w offers = elim (Result-cases (listed_services services)) [
    | inr (e, failed) ↦ rw (failed, services_list) (stays crate net w offers)
    | inl (listed, valid) ↦
        let changes = detect_services_list_changes w.services ip listed in
        rw (valid, services_list)
          (elim (Option-cases (apply_changes net fuel changes none w)) [
            | inl out ↦ rw out tt
            | inr (w', done) ↦ rw done (
              [],
              offers,
              next (next here (change fuel changes none w' tt done)) (join ip listed),
            )
          ])
  ]

  -- If a services list that is handled alone ends, with a reply or a status, then the server reaches
  -- the world that it ends with, from the world it began in and without tasks.
  pub services_list_method-Refines :
      (fuel : ℕ) (request : Request Services) (w : World) (offers : List SharedNetwork)
      → Refines crate net (idle w offers) (services_list_method net fuel request w)
  unfolding services_list_method
  services_list_method-Refines fuel request w offers = elim (Option-cases request.remote_addr) [
    | inl nowhere ↦ rw (nowhere, services_list_method) (stays crate net w offers)
    | inr (ip, from) ↦
        rw (from, services_list_method)
          (answer-Refines crate net (idle w offers)
            (services_list net fuel ip request.message.services w)
            (services_list-Refines fuel ip request.message.services w offers))
  ]
