-- ===== src/GrpcImpl/Backend.antt =====
-- `handle_backend_trigger` and what it calls.
use nullnet_grpc.Base.{
  ℕ, ◌^◌, String, Bool, true, false, not, Option, none, some, List, [], ◌∷◌, ◌==◌, string_eq,
  nat_eq, find, is_some, ltb, if◌then◌else◌, IpAddr, Ipv4Addr,
}
use nullnet_grpc.Base.HashMap.{get}
use nullnet_grpc.Base.Results.{Result, ok, err, ◌>>=◌}
use nullnet_grpc.Proto.{Net}
use nullnet_grpc.Net.{IpNetworkCrate}
use nullnet_grpc.Clients.{Client, new_service}
use nullnet_grpc.Edge.{RegisteredEdge}
use nullnet_grpc.ServiceInfo.{
  Replica, RegisteredServiceInfo, ServiceInfo, unregistered, registered, ServiceMap,
  is_client_setup, backend_dependency_chain,
}
use nullnet_grpc.Changes.{World, get_registered}
use nullnet_grpc.GrpcImpl.EdgeTask.{Readings}
use nullnet_grpc.GrpcImpl.ChainSetup.{net_chain_setup}
use nullnet_grpc.GrpcImpl.Proxy.{register_edges}

-- What the section under the lock finds: an error, or the initiator's replica and whether its chain
-- has to be built.
pub data TriggerAction : Type 0 where
  refuse : String → TriggerAction
  keep_chain : TriggerAction
  rebuild : IpAddr → Option String → TriggerAction

abbrev pub first_of {ℓ} : {A : Type ℓ} → Option (List A) → Option A
first_of none = none
first_of (some []) = none
first_of (some (x ∷ xs)) = some x

-- Whether the first dependency, if there is one, lacks an entry for the initiator.
abbrev pub needs_rebuild : Client → Option String → ServiceMap → Bool
needs_rebuild initiator_client none services = false
needs_rebuild initiator_client (some dep) services = elim (get_registered dep services) [
  | none ↦ true
  | some dep_reg ↦ not (is_some (is_client_setup initiator_client dep_reg))
]

abbrev pub decide_replica :
    String → ℕ → RegisteredServiceInfo → ServiceMap → Replica → TriggerAction
decide_replica initiator_name port reg services r =
    if needs_rebuild (new_service initiator_name r.ip r.docker_container)
      (first_of (get port reg.triggers)) services
    then rebuild r.ip r.docker_container
    else keep_chain

abbrev pub decide_initiator : String → ℕ → IpAddr → ServiceMap → Option ServiceInfo → TriggerAction
decide_initiator initiator_name port sender_ip services none = refuse "Initiator service not found"
decide_initiator initiator_name port sender_ip services (some (unregistered unreg)) =
    if is_some unreg.timeout
    then refuse "Initiator service is not registered"
    else refuse "Initiator service is not a configured entry point"
decide_initiator initiator_name port sender_ip services (some (registered reg)) =
    if is_some reg.timeout
    then elim (find (λ (r : Replica). r.ip == sender_ip) reg.replicas) [
      | none ↦ refuse "No initiator replica found on sender host"
      | some r ↦ decide_replica initiator_name port reg services r
    ]
    else refuse "Initiator service is not a configured entry point"

unfoldable pub decide_trigger : String → ℕ → IpAddr → ServiceMap → TriggerAction
decide_trigger initiator_name port sender_ip services =
    decide_initiator initiator_name port sender_ip services (get initiator_name services)

-- `none` in the result: there is no such trigger, or some dependency is not registered.
unfoldable pub build_backend_dep_chain :
    String → IpAddr → Option String → ℕ → ServiceMap → Result (Option (List RegisteredEdge))
unfolding register_edges
build_backend_dep_chain service_name service_ip service_docker port services =
    elim (get service_name services) [
      | none ↦ err "Service not found"
      | some (unregistered unreg) ↦ err "Service is not registered"
      | some (registered reg) ↦ ok (
          backend_dependency_chain reg service_name service_ip service_docker port services
          >>= register_edges)
    ]

abbrev pub forget_upstream : World × Result (Option Ipv4Addr) → World × Result (Unit {0})
forget_upstream (w, err e) = (w, err e)
forget_upstream (w, ok upstream) = (w, ok tt)

module _ (crate : IpNetworkCrate) (net : Net) (sched : List (ℕ × Readings)) where
  -- The first edge carries the trigger's port; without a chain, or with an empty one, nothing is
  -- set up.
  unfoldable pub setup_trigger_chain :
      ℕ → Option (List RegisteredEdge) → World → Option (World × Result (Unit {0}))
  unfolding net_chain_setup
  setup_trigger_chain port none w = some (w, ok tt)
  setup_trigger_chain port (some []) w = some (w, ok tt)
  setup_trigger_chain port (some (first ∷ edges)) w = do
    done ←
        net_chain_setup crate net sched (record first { backend_entry_port = some port } ∷ edges) w
    some (forget_upstream done)

  unfoldable pub setup_backend_chain :
      String → IpAddr → Option String → ℕ → World → Option (World × Result (Unit {0}))
  unfolding build_backend_dep_chain setup_trigger_chain
  setup_backend_chain initiator_name initiator_ip initiator_docker port w =
      elim (build_backend_dep_chain initiator_name initiator_ip initiator_docker port w.services) [
        | err e ↦ some (w, err e)
        | ok chain ↦ setup_trigger_chain port chain w
      ]

  unfoldable pub perform_trigger :
      String → ℕ → TriggerAction → World → Option (World × Result (Unit {0}))
  unfolding setup_backend_chain
  perform_trigger initiator_name port (refuse e) w = some (w, err e)
  perform_trigger initiator_name port keep_chain w = some (w, ok tt)
  perform_trigger initiator_name port (rebuild ip docker) w =
      setup_backend_chain initiator_name ip docker port w

  -- A trigger that no other task interrupts between the decision and the act.
  unfoldable pub handle_backend_trigger :
      String → ℕ → IpAddr → World → Option (World × Result (Unit {0}))
  unfolding decide_trigger perform_trigger
  handle_backend_trigger initiator_name port sender_ip w =
      perform_trigger initiator_name port (decide_trigger initiator_name port sender_ip w.services)
        w

  -- `u16::try_from(req.port)` guards the handler.
  unfoldable pub backend_trigger : String → ℕ → IpAddr → World → Option (World × Result (Unit {0}))
  unfolding handle_backend_trigger
  backend_trigger service_name port sender_ip w =
      if ltb port (2 ^ 16)
      then handle_backend_trigger service_name port sender_ip w
      else some (w, err "out of range integral type conversion attempted")
