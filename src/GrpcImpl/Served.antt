-- ===== src/GrpcImpl/Served.antt =====
-- A proxy request that sets up a network (src/nullnet_grpc_impl.rs).
use nullnet_grpc.Base.{
  ℕ, ◌≡◌, refl, ap, ◌∙◌, subst, List, [], ◌∷◌, true, false, String, Option, none, some, is_some,
  any, all, string_eq, if◌then◌else◌, IpAddr, Ipv4Addr,
}
use nullnet_grpc.Base.HashMap.{get}
use nullnet_grpc.Base.Results.{Result, ok}
use nullnet_grpc.Proto.{Net}
use nullnet_grpc.NetIdPool.{allocate}
use nullnet_grpc.Net.{IpNetworkCrate}
use nullnet_grpc.Net.Sides.{IsLawful, server_address}
use nullnet_grpc.Orchestrator.{acknowledged}
use nullnet_grpc.Clients.{new_client}
use nullnet_grpc.Edge.{RegisteredEdge}
use nullnet_grpc.ServiceInfo.{
  Replica, RegisteredServiceInfo, has_client, proxy_clients_count, pick_replica_least_clients,
  proxy_dependency_chain, build_linear_chain, linear_chain_from,
}
use nullnet_grpc.ServiceInfo.Upstreams.{upstream_of, absent-setup}
use nullnet_grpc.Changes.{World, get_registered}
use nullnet_grpc.Changes.Entry.{registered_of}
use nullnet_grpc.GrpcImpl.EdgeTask.{
  EdgeTask, starting, reserved, numbered, answered, EdgeOutcome, Readings, step_task, set_up_edge,
}
use nullnet_grpc.GrpcImpl.ChainSetup.{
  System, is_finished, note_end, run_schedule, step_at, net_chain_setup, settle,
}
use nullnet_grpc.GrpcImpl.Decision.{reached, decide_registered, set_up, decide_proxy}
use nullnet_grpc.GrpcImpl.Proxy.{
  proxy_edge, build_proxy_dep_chain, register_edges, setup_proxy_chain, new_proxy_chain,
  perform_proxy, handle_proxy_request,
}
use nullnet_grpc.GrpcImpl.Rollback.{pool_of}
use nullnet_grpc.GrpcImpl.Session.{HasSession}
use nullnet_grpc.GrpcImpl.SetUp.{Ready, Walk, setup-Walk}

abbrev alone : EdgeTask → World → List EdgeOutcome → System
alone t w os = record { world = w; tasks = t ∷ []; outcomes = os }

module _ (crate : IpNetworkCrate) (net : Net) where
  turn :
      (rd : Readings) (t : EdgeTask) (w : World) (s : EdgeTask × World)
      → step_task crate net rd t w ≡ s
      → (sched : List (ℕ × Readings)) (os : List EdgeOutcome)
      → run_schedule crate net ((0, rd) ∷ sched) (alone t w os)
        ≡ run_schedule crate net sched (alone s.0 s.1 (note_end t s.0 os))
  unfolding run_schedule step_at
  turn rd t w s e sched os =
      ap (λ x. run_schedule crate net sched (alone x.0 x.1 (note_end t x.0 os))) e

  -- The turns of a setup as the schedule of a chain of one edge.
  abbrev pub alone_turns : Readings → Readings → Readings → Readings → List (ℕ × Readings)
  alone_turns rd₁ rd₂ rd₃ rd₄ = (0, rd₁) ∷ (0, rd₂) ∷ (0, rd₃) ∷ (0, rd₄) ∷ []

  abbrev settled : System → Option (World × Result (Option Ipv4Addr))
  settled s = if all is_finished s.tasks then some (settle net s.outcomes s.world) else none

  alone-settles :
      (rd₁ rd₂ rd₃ rd₄ : Readings) (e : RegisteredEdge) (id : ℕ) (w w' : World) (a : Ipv4Addr)
      → Walk crate net rd₁ rd₂ rd₃ rd₄ e id w (set_up_edge net e a, w')
      → is_some e.client.1.proxy ≡ true
      → net_chain_setup crate net (alone_turns rd₁ rd₂ rd₃ rd₄) (e ∷ []) w ≡ some (w', ok (some a))
  unfolding net_chain_setup settle run_schedule
  alone-settles rd₁ rd₂ rd₃ rd₄ e id w w' a walk via =
      let path =
        turn rd₁ (starting e) w (reserved e, walk.w₁) walk.reserves
          ((0, rd₂) ∷ (0, rd₃) ∷ (0, rd₄) ∷ []) []
        ∙ (turn rd₂ (reserved e) walk.w₁ (numbered e id, walk.w₂) walk.numbers
              ((0, rd₃) ∷ (0, rd₄) ∷ []) []
            ∙ (turn rd₃ (numbered e id) walk.w₂
                  (answered e id walk.to_server walk.to_client, walk.w₃) walk.answers
                  ((0, rd₄) ∷ []) []
                ∙ turn rd₄ (answered e id walk.to_server walk.to_client) walk.w₃
                    (set_up_edge net e a, w') walk.commits [] [])) in
      ap settled path ∙ rw via refl

  reaches_setup :
      (name : String) (proxy_ip : IpAddr) (client_ip : String) (reg : RegisteredServiceInfo)
      (w : World)
      → get_registered name w.services ≡ some reg
      → is_some reg.timeout ≡ true
      → any (has_client (new_client client_ip (some proxy_ip))) reg.replicas ≡ false
      → reached reg.max_networks (proxy_clients_count reg) ≡ false
      → decide_proxy name proxy_ip client_ip w.services ≡ set_up
  unfolding decide_proxy
  reaches_setup name proxy_ip client_ip reg w found entry free below =
      rw (registered_of (get name w.services) reg found, entry)
        (rw (absent-setup (new_client client_ip (some proxy_ip)) reg free, decide_registered)
          (rw below refl))

  no_dependencies :
      (name : String) (ip : IpAddr) (docker : Option String) (reg : RegisteredServiceInfo)
      (w : World)
      → get_registered name w.services ≡ some reg
      → reg.proxy_deps ≡ []
      → build_proxy_dep_chain name ip docker w.services ≡ ok []
  unfolding build_proxy_dep_chain proxy_dependency_chain build_linear_chain linear_chain_from
      register_edges
  no_dependencies name ip docker reg w found deps =
      rw (registered_of (get name w.services) reg found, build_proxy_dep_chain)
        (rw (deps, proxy_dependency_chain) refl)

-- A client that no replica has asks for a registered entry point without dependencies and below
-- its limit, whose replica with the fewest clients, the first with its identity, has an open
-- channel, as has the proxy. If the pool has an identifier and both nodes acknowledge in the four
-- turns of the task, the request is answered with the address of the new network's server end on
-- that replica, and from then on the client has a session with it; the pool has given the
-- network's identifier.
pub handle_proxy_request-served :
    (crate : IpNetworkCrate) (lawful : IsLawful crate) (net : Net) (name : String)
    (proxy_ip : IpAddr) (client_ip : String) (reg : RegisteredServiceInfo) (r : Replica) (id : ℕ)
    (w : World)
    → is_some reg.timeout ≡ true
    → reached reg.max_networks (proxy_clients_count reg) ≡ false
    → reg.proxy_deps ≡ []
    → pick_replica_least_clients reg ≡ some r
    → Ready (proxy_edge name proxy_ip client_ip r.ip r.docker_container) reg r w
    → (allocate net (pool_of w)).1 ≡ some id
    → (fuel now : ℕ) (rd₁ rd₂ rd₃ rd₄ : Readings) → rd₃.server_reply ≡ acknowledged
    → rd₃.client_reply ≡ acknowledged
    → (w' : World) × (handle_proxy_request crate net fuel now
          (alone_turns crate net rd₁ rd₂ rd₃ rd₄)
          name
          proxy_ip
          client_ip
          w
        ≡ some (w', ok (upstream_of (server_address net id r.docker_container) r)))
      × HasSession name
          (new_client client_ip (some proxy_ip))
          (upstream_of (server_address net id r.docker_container) r)
          w'
      × (w'.orchestrator.net_id_pool ≡ (allocate net (pool_of w)).0)
unfolding handle_proxy_request perform_proxy new_proxy_chain setup_proxy_chain
handle_proxy_request-served crate lawful net name proxy_ip client_ip reg r id w entry below deps
      picks ready got fuel now rd₁ rd₂ rd₃ rd₄ server_ack client_ack =
    let e = proxy_edge name proxy_ip client_ip r.ip r.docker_container in
    let a = server_address net id r.docker_container in
    let ((t, w'), walk, done) =
      setup-Walk crate lawful net rd₁ rd₂ rd₃ rd₄ e reg r id w ready got server_ack client_ack in
    let walk' : Walk crate net rd₁ rd₂ rd₃ rd₄ e id w (set_up_edge net e a, w') =
      subst (λ x. Walk crate net rd₁ rd₂ rd₃ rd₄ e id w (x, w')) done.succeeded walk in
    (
      w',
      rw
          (reaches_setup crate net name proxy_ip client_ip reg w ready.is_registered entry
            ready.is_free below)
          (rw (ready.is_registered, picks, new_proxy_chain)
            (rw
              (
                no_dependencies crate net name r.ip r.docker_container reg w ready.is_registered
                    deps,
                setup_proxy_chain,
              )
              (rw (alone-settles crate net rd₁ rd₂ rd₃ rd₄ e id w w' a walk' refl) refl))),
      record {
        reg = done.reg';
        is_registered = done.is_registered;
        entry_point = ap is_some done.same_timeout ∙ entry;
        is_setup = done.is_setup;
      },
      done.is_taken,
    )
