-- ===== src/Server/Refines/Chains.antt =====
-- The setup of a chain as a run of the transition system (src/nullnet_grpc_impl.rs).
use nullnet_grpc.Base.{
  ℕ, zero, suc, ◌≡◌, refl, ap, List, [], ◌∷◌, map, any, all, inl, inr, Bool-cases, sym, string_eq,
}
use nullnet_grpc.Proto.{Net}
use nullnet_grpc.Net.{IpNetworkCrate}
use nullnet_grpc.Edge.{RegisteredEdge}
use nullnet_grpc.Changes.{World}
use nullnet_grpc.GrpcImpl.{
  EdgeOutcome, System, Readings, step_at, run_schedule, net_chain_setup, settle, is_failure,
  successes, edge_of, is_finished, SharedNetwork,
}
use nullnet_grpc.GrpcImpl.EdgeTask.{EdgeTask, starting}
use nullnet_grpc.Server.{Server, Reachable, here, next, spawn, task, settle as settle_step}
use nullnet_grpc.Server.Refines.{Leads, Refines, Reachable-trans}

module _ (crate : IpNetworkCrate) (net : Net) where
  -- The list of outcomes so far does not matter to the tasks and the world.
  step_at-outcomes :
      (i : ℕ) (rd : Readings) (ts : List EdgeTask) (w : World) (os os' : List EdgeOutcome)
      → ((step_at crate net i rd ts w os).0 ≡ (step_at crate net i rd ts w os').0)
        × ((step_at crate net i rd ts w os).1 ≡ (step_at crate net i rd ts w os').1)
  unfolding step_at
  step_at-outcomes i rd [] w os os' = (refl, refl)
  step_at-outcomes zero rd (t ∷ ts) w os os' = (refl, refl)
  step_at-outcomes (suc i) rd (t ∷ ts) w os os' =
      let (tasks, world) = step_at-outcomes i rd ts w os os' in (ap (λ xs. t ∷ xs) tasks, world)

  abbrev server_of : List SharedNetwork → System → Server
  server_of offers s = record { world = s.world; tasks = s.tasks; offers = offers }

  run_schedule-Reachable :
      (sched : List (ℕ × Readings)) (offers : List SharedNetwork) (s : System)
      → Reachable crate net (server_of offers s) (server_of offers (run_schedule crate net sched s))
  unfolding run_schedule
  run_schedule-Reachable [] offers s = here
  run_schedule-Reachable ((i, rd) ∷ sched) offers s =
      let (tasks, world) = step_at-outcomes i rd s.tasks s.world [] s.outcomes in
      let first : Reachable crate net (server_of offers s) (record {
        world = (step_at crate net i rd s.tasks s.world s.outcomes).1;
        tasks = (step_at crate net i rd s.tasks s.world s.outcomes).0;
        offers = offers;
      }) =
        rw (sym tasks, sym world) (next here (task i rd)) in
      Reachable-trans crate net first (run_schedule-Reachable sched offers _)

  settle-Leads :
      (outcomes : List EdgeOutcome) (s : Server) → Leads crate net s (settle net outcomes s.world).0
  unfolding settle
  settle-Leads outcomes s = elim (Bool-cases (any is_failure outcomes)) [
    | inl failure ↦
        rw failure (s.tasks, s.offers, next here (settle_step (map edge_of (successes outcomes))))
    | inr success ↦ rw success (s.tasks, s.offers, here)
  ]

  -- If a chain setup ends under its schedule, then the server reaches the world that it ends with,
  -- from the world it began in and without tasks.
  pub net_chain_setup-Refines :
      (sched : List (ℕ × Readings)) (chain : List RegisteredEdge) (w : World)
      (offers : List SharedNetwork)
      → Refines crate net
          (record { world = w; tasks = []; offers = offers })
          (net_chain_setup crate net sched chain w)
  unfolding net_chain_setup
  net_chain_setup-Refines sched chain w offers =
      let start : System = record { world = w; tasks = map starting chain; outcomes = [] } in
      let done = run_schedule crate net sched start in
      elim (Bool-cases (all is_finished done.tasks)) [
        | inl finished ↦
            let (tasks, offers', r) = settle-Leads done.outcomes (server_of offers done) in
            rw finished (
              tasks,
              offers',
              Reachable-trans crate net (next here (spawn chain))
                  (Reachable-trans crate net (run_schedule-Reachable sched offers start) r),
            )
        | inr unfinished ↦ rw unfinished tt
      ]
