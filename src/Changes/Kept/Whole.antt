-- ===== src/Changes/Kept/Whole.antt =====
-- `apply_changes`, part by part, under the interface of its actions (src/services/changes.rs).
use nullnet_grpc.Base.{
  ℕ, String, Bool, true, false, Option, none, some, List, inl, inr, Option-cases, filter_map,
  if◌then◌else◌, string_eq,
}
use nullnet_grpc.Base.HashMap.{modify, remove}
use nullnet_grpc.Proto.{Net}
use nullnet_grpc.Clients.{Client}
use nullnet_grpc.ServiceInfo.{ServiceMap, OwnedClient, remove_replicas_on_ip, remove_replica}
use nullnet_grpc.Changes.{
  World, ProxyFilter, all_clients, by_ip, by_client, on_replica, on_ip, ServiceChange, removed,
  proxy_deps_changed, triggers_changed, reachability_changed, replicas_removed, replica_removed,
  proxy_disconnected, proxy_client_timed_out, get_registered, for_each, teardown_backend_chain,
  teardown_all_backend_chains_for, teardown_chain, fail_service, teardown_dependent,
  only_through_for, to_clean_up, teardown_invalidated_service, teardown_source, affected_clients,
  teardown_partial_replicas, on_services, services_via, ids_on_ip, all_on_ip, has_one_replica,
  apply_change, apply_changes, update_loaded,
}
use nullnet_grpc.Changes.Kept.{
  Kept, Result, Result-bind, Result-map, Result-if, for_each-Result, Any, All-Any,
  backend_chain-kept, backend_chains-kept, all_backend_chains-kept, chain-kept,
}

module _ (net : Net) (P : World → Type 0) (Good : OwnedClient → Type 0) (kept : Kept net P Good)
    (fuel : ℕ) where
  failed_or_not :
      (b : Bool) (name : String) (w : World) → P w → P (if b then fail_service name w else w)
  failed_or_not true name w p = kept.failed name w p
  failed_or_not false name w p = p

  dependent-kept :
      (invalidated name : String) (w : World)
      → P w
      → Result P (teardown_dependent net fuel invalidated name w)
  dependent-kept invalidated name w p =
      Result-map P (teardown_chain net fuel name all_clients w)
        (teardown_all_backend_chains_for net name (only_through_for invalidated name))
        (chain-kept net P Good kept fuel name all_clients w p)
        (all_backend_chains-kept net P Good kept name (only_through_for invalidated name))

  invalidated-kept :
      (name : String) (is_failed : Bool) (w : World)
      → P w
      → Result P (teardown_invalidated_service net fuel name is_failed w)
  unfolding teardown_invalidated_service
  invalidated-kept name is_failed w p =
      Result-map P
        (for_each (teardown_dependent net fuel name) (filter_map (to_clean_up name) w.services) w)
        (λ w'. if is_failed then fail_service name w' else w')
        (for_each-Result P Any (teardown_dependent net fuel name)
          (λ x w' q. dependent-kept name x w') (filter_map (to_clean_up name) w.services) w
          (All-Any (filter_map (to_clean_up name) w.services)) p)
        (failed_or_not is_failed name)

  source-kept :
      (name : String) (client : Client) (w : World)
      → P w
      → Result P (teardown_source net fuel name client w)
  source-kept name client w p = elim (Option-cases client.replica) [
    | inl absent ↦ rw (absent, teardown_source) p
    | inr ((ip, docker), found) ↦
        simp (found, teardown_source)
          (Result-map P (teardown_chain net fuel client.name (on_replica ip docker) w)
            (teardown_backend_chain net (client.name, ip, docker) (some name))
            (chain-kept net P Good kept fuel client.name (on_replica ip docker) w p)
            (backend_chain-kept net P Good kept (client.name, ip, docker) (some name)))
  ]

  partial-kept :
      (name : String) (filter : ProxyFilter) (w : World)
      → P w
      → Result P (teardown_partial_replicas net fuel name filter w)
  unfolding teardown_partial_replicas
  partial-kept name filter w p = elim (Option-cases (get_registered name w.services)) [
    | inl absent ↦ rw (absent, teardown_partial_replicas) p
    | inr (reg, found) ↦
        rw (found, teardown_partial_replicas)
          (Result-bind P (for_each (teardown_source net fuel name) (affected_clients filter reg) w)
            (teardown_chain net fuel name filter)
            (for_each-Result P Any (teardown_source net fuel name) (λ c w' q. source-kept name c w')
              (affected_clients filter reg) w (All-Any (affected_clients filter reg)) p)
            (chain-kept net P Good kept fuel name filter))
  ]

  pub change-kept :
      (change : ServiceChange) (w : World) → P w → Result P (apply_change net fuel change w)
  unfolding apply_change
  change-kept (removed name) w p =
      Result-map P (teardown_invalidated_service net fuel name true w) (on_services (remove name))
        (invalidated-kept name true w p) (kept.dropped name)
  change-kept (proxy_deps_changed name) w p = invalidated-kept name false w p
  change-kept (triggers_changed name) w p = all_backend_chains-kept net P Good kept name none w p
  change-kept (reachability_changed name) w p =
      Result-map P (teardown_chain net fuel name all_clients w)
        (teardown_all_backend_chains_for net name none)
        (chain-kept net P Good kept fuel name all_clients w p)
        (all_backend_chains-kept net P Good kept name none)
  change-kept (replicas_removed name ip) w p =
      Result-if P (all_on_ip ip (get_registered name w.services)) _ _
        (invalidated-kept name true w p)
        (Result-map P _ (on_services (modify name (remove_replicas_on_ip ip)))
          (partial-kept name (on_ip ip) _ (
            backend_chains-kept net P Good kept name (ids_on_ip ip (get_registered name w.services))
              none w p))
          (kept.node_lost name ip))
  change-kept (replica_removed name ip docker) w p =
      Result-if P (has_one_replica (get_registered name w.services)) _ _
        (invalidated-kept name true w p)
        (Result-map P _ (on_services (modify name (remove_replica ip docker)))
          (partial-kept name (on_replica ip docker) _
            (backend_chain-kept net P Good kept (name, ip, docker) none w p))
          (kept.replica_lost name ip docker))
  change-kept (proxy_disconnected ip) w p =
      for_each-Result P Any (λ name. teardown_chain net fuel name (by_ip ip))
        (λ name w' q. chain-kept net P Good kept fuel name (by_ip ip) w')
        (services_via ip w.services) w (All-Any (services_via ip w.services)) p
  change-kept (proxy_client_timed_out name client) w p =
      chain-kept net P Good kept fuel name (by_client client) w p

  -- If each action keeps the predicate, and so does the update from the loaded services, then
  -- `apply_changes` keeps it.
  pub apply_changes-kept :
      (changes : List ServiceChange) (loaded : Option ServiceMap) (w : World)
      → ((w' : World) → P w' → P (update_loaded loaded w'))
      → P w
      → Result P (apply_changes net fuel changes loaded w)
  unfolding apply_changes
  apply_changes-kept changes loaded w u p =
      Result-map P (for_each (apply_change net fuel) changes w) (update_loaded loaded)
        (for_each-Result P Any (apply_change net fuel) (λ c w' q. change-kept c w') changes w
          (All-Any changes) p)
        u
