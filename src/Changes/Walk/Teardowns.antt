-- ===== src/Changes/Walk/Teardowns.antt =====
-- The ranks of the proxy dependencies and the fuel of each teardown (src/services/changes.rs).
use nullnet_grpc.Base.{
  ℕ, String, ◌<◌, ◌≡◌, refl, Bool, true, false, Option, some, List, [], ◌∷◌, inl, inr, Option-cases,
  filter_map, if◌then◌else◌, string_eq, arith,
}
use nullnet_grpc.Base.Results.{◌>>=◌}
use nullnet_grpc.Proto.{Net}
use nullnet_grpc.Clients.{Client}
use nullnet_grpc.ServiceInfo.{OwnedClient, unregister}
use nullnet_grpc.Changes.Walk.{Ranked, collect_ends}
use nullnet_grpc.Changes.Walk.Ranks.{deps_of-insert}
use nullnet_grpc.Changes.{
  World, ProxyFilter, all_clients, on_replica, Hop, get_registered, update_registered, for_each,
  decrement_edges, teardown_dep_chain, teardown_backend_chain, teardown_all_backend_chains_for,
  remove_clients, teardown_networks, teardown_chain, matching, fail_service,
  teardown_invalidated_service, teardown_source, teardown_partial_replicas, teardown_dependent,
  only_through_for, to_clean_up, affected_clients,
}
use nullnet_grpc.Changes.Walk.Keeping.{
  update_registered-Ranked, decrement_edges-Ranked, backend_chain-Ranked, all_backend_chains-Ranked,
  remove_clients-deps, networks-services,
}

module _ (net : Net) (rank : String → ℕ) (fuel : ℕ)
    (enough : (name : String) → rank name < fuel) where
  -- The run returns a world whose dependencies are still ranked.
  abbrev pub Ends : Option World → Type 0
  Ends m = (w : World) × (m ≡ some w) × Ranked rank w.services

  pub Ends-bind :
      (m : Option World) (f : World → Option World)
      → Ends m
      → ((w : World) → Ranked rank w.services → Ends (f w))
      → Ends (m >>= f)
  Ends-bind m f (w, e, r) k = rw e (k w r)

  pub for_each-Ends :
      {A : Type 0} (body : A → World → Option World)
      → ((x : A) (w : World) → Ranked rank w.services → Ends (body x w))
      → (xs : List A) (w : World) → Ranked rank w.services
      → Ends (for_each body xs w)
  for_each-Ends body h [] w r = (w, refl, r)
  for_each-Ends body h (x ∷ xs) w r = Ends-bind (body x w) _ (h x w r) (for_each-Ends body h xs)

  dep_chain-Ends :
      (here : Hop) (w : World) → Ranked rank w.services → Ends (teardown_dep_chain net fuel here w)
  unfolding teardown_dep_chain
  dep_chain-Ends here w r =
      let (edges, e) = collect_ends rank w.services r fuel here (enough here.0) in
      rw e (decrement_edges net edges w, refl, decrement_edges-Ranked net rank edges w r)

  networks-Ranked :
      (name : String) (ts : List OwnedClient) (seen : List ℕ) (w : World)
      → Ranked rank w.services
      → Ranked rank (teardown_networks net name ts seen w).services
  networks-Ranked name ts seen w r = rw (networks-services net rank name ts seen w) r

  -- A run followed by a step that keeps the ranks.
  pub Ends-map :
      (m : Option World) (f : World → World)
      → Ends m
      → ((w : World) → Ranked rank w.services → Ranked rank (f w).services)
      → Ends (m >>= λ w. some (f w))
  Ends-map m f e k = Ends-bind m (λ w. some (f w)) e (λ w r. (f w, refl, k w r))

  remove_and_teardown-Ranked :
      (name : String) (ts : List OwnedClient) (w : World)
      → Ranked rank w.services
      → Ranked rank
          (teardown_networks net name ts [] (record w {
            services = update_registered name (remove_clients ts) w.services;
          })).services
  remove_and_teardown-Ranked name ts w r = networks-Ranked name ts [] _ (
      update_registered-Ranked net rank name (remove_clients ts) w.services
        (remove_clients-deps net rank ts) r)

  pub chain-Ends :
      (name : String) (filter : ProxyFilter) (w : World)
      → Ranked rank w.services
      → Ends (teardown_chain net fuel name filter w)
  unfolding teardown_chain
  chain-Ends name filter w r = elim (Option-cases (get_registered name w.services)) [
    | inl absent ↦ rw (absent, teardown_chain) (w, refl, r)
    | inr (reg, found) ↦
        rw (found, teardown_chain)
          (Ends-bind
            (for_each
              (λ (t : OwnedClient).
                teardown_dep_chain net fuel (name, t.replica_ip, t.replica_docker))
              (matching filter reg) w)
            _
            (for_each-Ends
              (λ (t : OwnedClient).
                teardown_dep_chain net fuel (name, t.replica_ip, t.replica_docker))
              (λ t. dep_chain-Ends (name, t.replica_ip, t.replica_docker)) (matching filter reg) w
              r)
            λ w' r'. (_, refl, remove_and_teardown-Ranked name (matching filter reg) w' r'))
  ]

  fail_service-Ranked :
      (name : String) (w : World)
      → Ranked rank w.services
      → Ranked rank (fail_service name w).services
  fail_service-Ranked name w r = elim (Option-cases (get_registered name w.services)) [
    | inl absent ↦ rw (absent, fail_service) r
    | inr (reg, found) ↦
        rw (found, fail_service)
          λ j. rw (deps_of-insert name j (unregister reg) w.services (ground (arith, found))) (r j)
  ]

  failed_or_not :
      (b : Bool) (name : String) (w : World)
      → Ranked rank w.services
      → Ranked rank (if b then fail_service name w else w).services
  failed_or_not true name w r = fail_service-Ranked name w r
  failed_or_not false name w r = r

  dependent-Ends :
      (invalidated name : String) (w : World)
      → Ranked rank w.services
      → Ends (teardown_dependent net fuel invalidated name w)
  dependent-Ends invalidated name w r =
      Ends-map (teardown_chain net fuel name all_clients w)
        (teardown_all_backend_chains_for net name (only_through_for invalidated name))
        (chain-Ends name all_clients w r)
        (all_backend_chains-Ranked net rank name (only_through_for invalidated name))

  pub invalidated-Ends :
      (name : String) (is_failed : Bool) (w : World)
      → Ranked rank w.services
      → Ends (teardown_invalidated_service net fuel name is_failed w)
  unfolding teardown_invalidated_service
  invalidated-Ends name is_failed w r =
      Ends-map
        (for_each (teardown_dependent net fuel name) (filter_map (to_clean_up name) w.services) w)
        (λ w'. if is_failed then fail_service name w' else w')
        (for_each-Ends (teardown_dependent net fuel name) (dependent-Ends name)
          (filter_map (to_clean_up name) w.services) w r)
        (failed_or_not is_failed name)

  source-Ends :
      (name : String) (client : Client) (w : World)
      → Ranked rank w.services
      → Ends (teardown_source net fuel name client w)
  source-Ends name client w r = elim (Option-cases client.replica) [
    | inl absent ↦ rw (absent, teardown_source) (w, refl, r)
    | inr ((ip, docker), found) ↦
        simp (found, teardown_source)
          (Ends-map (teardown_chain net fuel client.name (on_replica ip docker) w)
            (teardown_backend_chain net (client.name, ip, docker) (some name))
            (chain-Ends client.name (on_replica ip docker) w r)
            (backend_chain-Ranked net rank (client.name, ip, docker) (some name)))
  ]

  pub partial-Ends :
      (name : String) (filter : ProxyFilter) (w : World)
      → Ranked rank w.services
      → Ends (teardown_partial_replicas net fuel name filter w)
  unfolding teardown_partial_replicas
  partial-Ends name filter w r = elim (Option-cases (get_registered name w.services)) [
    | inl absent ↦ rw (absent, teardown_partial_replicas) (w, refl, r)
    | inr (reg, found) ↦
        rw (found, teardown_partial_replicas)
          (Ends-bind (for_each (teardown_source net fuel name) (affected_clients filter reg) w)
            (teardown_chain net fuel name filter)
            (for_each-Ends (teardown_source net fuel name) (source-Ends name)
              (affected_clients filter reg) w r)
            (chain-Ends name filter))
  ]
