-- ===== src/Changes/Kept/Channels.antt =====
-- The orchestrator under `apply_changes` (src/services/changes.rs).
use nullnet_grpc.Base.{
  ℕ, String, ◌≡◌, Option, none, some, List, [], ◌∷◌, inl, inr, Option-cases, Bool-cases, string_eq,
  nat_eq, ◌==◌, IpAddr,
}
use nullnet_grpc.Base.HashMap.{get}
use nullnet_grpc.Proto.{Net}
use nullnet_grpc.Orchestrator.{Orchestrator, send_net_teardown}
use nullnet_grpc.Orchestrator.Laws.{send_net_teardown-absent}
use nullnet_grpc.Clients.{Client, client_eq, remove_active_chains}
use nullnet_grpc.ServiceInfo.{
  Replica, ServiceMap, decrement_first, decrement_chain, decrement_entry, all_clients_owned,
}
use nullnet_grpc.Changes.{
  World, DepEdge, get_registered, fail_service, decrement_edge, update_loaded,
}
use nullnet_grpc.Changes.Kept.{Kept, Any, All-Any}

module _ (net : Net) (Q : Orchestrator → Type 0)
    (kept : (client : IpAddr) (client_docker : Option String) (server : IpAddr)
        (server_docker : Option String) (id : ℕ) (o : Orchestrator)
      → Q o
      → Q (send_net_teardown net client client_docker server server_docker id o)) where
  decrement_first-kept :
      (client : Client) (rs : List Replica) (o : Orchestrator)
      → Q o
      → Q (decrement_first net client rs o).1
  unfolding decrement_first
  decrement_first-kept client [] o q = q
  decrement_first-kept client (r ∷ rs) o q = elim (Option-cases (get client r.clients.clients)) [
    | inl absent ↦ rw (absent, decrement_first) (decrement_first-kept client rs o q)
    | inr (ci, found) ↦
        rw (found, decrement_first)
          (elim (Bool-cases ((remove_active_chains 1 ci).active_chains == 0)) [
            | inl last ↦
                rw (last, decrement_entry)
                  (kept ci.client_ip ci.docker_container r.ip r.docker_container ci.net_id o q)
            | inr more ↦ rw (more, decrement_entry) q
          ])
  ]

  decrement_edge-kept :
      (e : DepEdge) (w : World) → Q w.orchestrator → Q (decrement_edge net e w).orchestrator
  unfolding decrement_edge decrement_chain
  decrement_edge-kept (client, dep) w q = elim (Option-cases (get_registered dep w.services)) [
    | inl absent ↦ rw (absent, decrement_edge) q
    | inr (reg, found) ↦
        rw (found, decrement_edge) (decrement_first-kept client reg.replicas w.orchestrator q)
  ]

  fail_service-kept :
      (name : String) (w : World) → Q w.orchestrator → Q (fail_service name w).orchestrator
  fail_service-kept name w q = elim (Option-cases (get_registered name w.services)) [
    | inl absent ↦ rw (absent, fail_service) q
    | inr (reg, found) ↦ rw (found, fail_service) q
  ]

  pub orchestrator-Kept : Kept net (λ w. Q w.orchestrator) Any
  orchestrator-Kept = record {
    owned = λ name reg w e q. All-Any (all_clients_owned reg);
    decremented = decrement_edge-kept;
    forgotten = λ name ts w q. q;
    torn_down = λ t w g q.
        kept t.info.client_ip t.info.docker_container t.replica_ip t.replica_docker t.info.net_id
          w.orchestrator q;
    failed = fail_service-kept;
    dropped = λ name w q. q;
    node_lost = λ name ip w q. q;
    replica_lost = λ name ip docker w q. q;
  }

  pub update_loaded-kept :
      (loaded : Option ServiceMap) (w : World)
      → Q w.orchestrator
      → Q (update_loaded loaded w).orchestrator
  update_loaded-kept none w q = q
  update_loaded-kept (some loaded) w q = q

-- A node without a channel gets none from a teardown.
pub absent-Kept :
    (net : Net) (ip : IpAddr) → Kept net (λ w. get ip w.orchestrator.clients ≡ none) Any
absent-Kept net ip =
    orchestrator-Kept net (λ o. get ip o.clients ≡ none) (send_net_teardown-absent net ip)
