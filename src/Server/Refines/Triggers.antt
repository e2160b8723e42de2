-- ===== src/Server/Refines/Triggers.antt =====
-- A backend trigger as a run of the transition system (src/nullnet_grpc_impl.rs).
use nullnet_grpc.Base.{
  ℕ, ◌≡◌, refl, String, Option, none, some, List, [], ◌∷◌, inl, inr, ltb, ◌^◌, Bool-cases, Ipv4Addr,
  Option-cases,
}
use nullnet_grpc.Base.Results.{Result, Result-cases, ok, err}
use nullnet_grpc.Proto.{Net, BackendTriggerRequest}
use nullnet_grpc.Net.{IpNetworkCrate}
use nullnet_grpc.Edge.{RegisteredEdge}
use nullnet_grpc.Changes.{World}
use nullnet_grpc.GrpcImpl.{
  Readings, SharedNetwork, TriggerAction, refuse, keep_chain, rebuild, perform_trigger,
  handle_backend_trigger, backend_trigger, setup_backend_chain, build_backend_dep_chain,
  setup_trigger_chain, forget_upstream, Request, backend_trigger_method,
}
use nullnet_grpc.Server.Refines.{Refines, Refines-map}
use nullnet_grpc.Server.Refines.Chains.{net_chain_setup-Refines}
use nullnet_grpc.Server.Refines.Proxy.{idle, answer-Refines, stays}

module _ (crate : IpNetworkCrate) (net : Net) where
  forget_upstream-same : (x : World × Result (Option Ipv4Addr)) → (forget_upstream x).0 ≡ x.0
  forget_upstream-same (w, err e) = refl
  forget_upstream-same (w, ok upstream) = refl

  setup_trigger_chain-Refines :
      (sched : List (ℕ × Readings)) (port : ℕ) (chain : Option (List RegisteredEdge)) (w : World)
      (offers : List SharedNetwork)
      → Refines crate net (idle w offers) (setup_trigger_chain crate net sched port chain w)
  unfolding setup_trigger_chain
  setup_trigger_chain-Refines sched port none w offers = stays crate net w offers
  setup_trigger_chain-Refines sched port (some []) w offers = stays crate net w offers
  setup_trigger_chain-Refines sched port (some (first ∷ edges)) w offers =
      Refines-map crate net (idle w offers) _ forget_upstream forget_upstream-same (
        net_chain_setup-Refines crate net sched
          (record first { backend_entry_port = some port } ∷ edges) w offers)

  perform_trigger-Refines :
      (sched : List (ℕ × Readings)) (name : String) (port : ℕ) (action : TriggerAction) (w : World)
      (offers : List SharedNetwork)
      → Refines crate net (idle w offers) (perform_trigger crate net sched name port action w)
  unfolding perform_trigger setup_backend_chain
  perform_trigger-Refines sched name port (refuse e) w offers = stays crate net w offers
  perform_trigger-Refines sched name port keep_chain w offers = stays crate net w offers
  perform_trigger-Refines sched name port (rebuild ip docker) w offers =
      elim (Result-cases (build_backend_dep_chain name ip docker port w.services)) [
        | inl (chain, built) ↦
            rw (built, setup_backend_chain) (setup_trigger_chain-Refines sched port chain w offers)
        | inr (e, failed) ↦ rw (failed, setup_backend_chain) (stays crate net w offers)
      ]

  -- If a backend trigger that runs alone ends, with success or a status, then the server reaches the
  -- world that it ends with, from the world it began in and without tasks.
  pub backend_trigger_method-Refines :
      (sched : List (ℕ × Readings)) (request : Request BackendTriggerRequest) (w : World)
      (offers : List SharedNetwork)
      → Refines crate net (idle w offers) (backend_trigger_method crate net sched request w)
  unfolding backend_trigger_method backend_trigger handle_backend_trigger
  backend_trigger_method-Refines sched request w offers = elim (Option-cases request.remote_addr) [
    | inl nowhere ↦ rw (nowhere, backend_trigger_method) (stays crate net w offers)
    | inr (sender_ip, from) ↦
        rw (from, backend_trigger_method)
          (answer-Refines crate net (idle w offers)
            (backend_trigger crate net sched request.message.service_name request.message.port
              sender_ip w)
            (elim (Bool-cases (ltb request.message.port (2 ^ 16))) [
              | inl fits ↦
                  rw (fits, backend_trigger)
                    (perform_trigger-Refines sched request.message.service_name request.message.port
                      _ w offers)
              | inr large ↦ rw (large, backend_trigger) (stays crate net w offers)
            ]))
  ]
