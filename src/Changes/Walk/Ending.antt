-- ===== src/Changes/Walk/Ending.antt =====
-- The ranks and the fuel of `apply_changes` (src/services/changes.rs).
use nullnet_grpc.Base.{
  ℕ, String, ◌<◌, ◌≡◌, refl, subst, Bool, true, false, Option, none, some, List, [], ◌∷◌, inl, inr,
  Option-cases, Bool-cases, if◌then◌else◌, string_eq, ◌==◌, IpAddr, arith, All, eq_iff,
}
use nullnet_grpc.Base.HashMap.{get, insert, modify, remove, contains_key, get-insert, get-modify}
use nullnet_grpc.Proto.{Net}
use nullnet_grpc.ServiceInfo.{
  ServiceInfo, unregistered, registered, ServiceMap, proxy_deps, remove_replicas_on_ip,
  remove_replica, update_from_file,
}
use nullnet_grpc.Changes.Walk.{Ranked}
use nullnet_grpc.Changes.Walk.Ranks.{deps_of-modify, deps_of-remove}
use nullnet_grpc.Changes.{
  World, ServiceChange, removed, proxy_deps_changed, triggers_changed, reachability_changed,
  replicas_removed, replica_removed, proxy_disconnected, proxy_client_timed_out, all_clients, by_ip,
  by_client, on_replica, on_ip, deps_of, get_registered, for_each, teardown_all_backend_chains_for,
  teardown_chain, teardown_invalidated_service, apply_change, apply_changes, update_all,
  update_loaded, on_services, services_via, ids_on_ip, all_on_ip, has_one_replica,
}
use nullnet_grpc.Changes.Walk.Keeping.{
  backend_chain-Ranked, backend_chains-Ranked, all_backend_chains-Ranked,
}
use nullnet_grpc.Changes.Walk.Teardowns.{
  Ends, Ends-map, for_each-Ends, chain-Ends, invalidated-Ends, partial-Ends,
}

-- The dependencies of the loaded services rank below them.
abbrev pub LoadedRanked : (String → ℕ) → Option ServiceMap → Type 0
LoadedRanked rank none = Unit
LoadedRanked rank (some loaded) =
    All (λ (e : String × ServiceInfo). All (λ d. rank d < rank e.0) (proxy_deps e.1)) loaded

removed-Ranked :
    (rank : String → ℕ) (name : String) (services : ServiceMap)
    → Ranked rank services
    → Ranked rank (remove name services)
removed-Ranked rank name services r j =
    rw (deps_of-remove name j services)
      (elim (Bool-cases (name == j)) [ inl hit ↦ rw hit tt | inr miss ↦ rw miss (r j) ])

modified-Ranked :
    (rank : String → ℕ) (name : String) (f : ServiceInfo → ServiceInfo) (services : ServiceMap)
    → ((si : ServiceInfo) → proxy_deps (f si) ≡ proxy_deps si)
    → Ranked rank services
    → Ranked rank (modify name f services)
modified-Ranked rank name f services same r j = rw (deps_of-modify name j f services same) (r j)

remove_replicas_on_ip-deps :
    (ip : IpAddr) (si : ServiceInfo) → proxy_deps (remove_replicas_on_ip ip si) ≡ proxy_deps si
unfolding remove_replicas_on_ip
remove_replicas_on_ip-deps ip (unregistered unreg) = refl
remove_replicas_on_ip-deps ip (registered reg) = ground arith

remove_replica-deps :
    (ip : IpAddr) (docker : Option String) (si : ServiceInfo)
    → proxy_deps (remove_replica ip docker si) ≡ proxy_deps si
unfolding remove_replica
remove_replica-deps ip docker (unregistered unreg) = refl
remove_replica-deps ip docker (registered reg) = ground arith

update_from_file-deps :
    (loaded si : ServiceInfo) → proxy_deps (update_from_file loaded si) ≡ proxy_deps loaded
unfolding update_from_file
update_from_file-deps loaded (unregistered unreg) = refl
update_from_file-deps loaded (registered reg) = refl

abbrev upsert : String → ServiceInfo → ServiceMap → ServiceMap
upsert name loaded services =
    if contains_key name services
    then modify name (update_from_file loaded) services
    else insert name loaded services

-- The dependencies after one entry is updated or inserted.
deps_of-upsert :
    (name j : String) (loaded : ServiceInfo) (services : ServiceMap)
    → deps_of j (upsert name loaded services)
      ≡ (if name == j then proxy_deps loaded else deps_of j services)
unfolding contains_key
deps_of-upsert name j loaded services = elim (Option-cases (get name services)) [
  | inl absent ↦ rw (absent, get-insert name j loaded services) (ground arith)
  | inr (si, found) ↦
      rw (found, get-modify name j (update_from_file loaded) services)
        (ground (arith, found, eq_iff name j, update_from_file-deps loaded si))
]

upsert-Ranked :
    (rank : String → ℕ) (name : String) (loaded : ServiceInfo) (services : ServiceMap)
    → All (λ d. rank d < rank name) (proxy_deps loaded)
    → Ranked rank services
    → Ranked rank (upsert name loaded services)
upsert-Ranked rank name loaded services a r j =
    rw (deps_of-upsert name j loaded services) (elim (Bool-cases (name == j)) [
      | inl hit ↦
          rw hit
            (subst (λ k. All (λ d. rank d < rank k) (proxy_deps loaded)) ((eq_iff name j).0 hit) a)
      | inr miss ↦ rw miss (r j)
    ])

update_all-Ranked :
    (rank : String → ℕ) (loaded services : ServiceMap)
    → LoadedRanked rank (some loaded)
    → Ranked rank services
    → Ranked rank (update_all loaded services)
unfolding update_all
update_all-Ranked rank [] services l r = r
update_all-Ranked rank ((name, si) ∷ loaded) services l r =
    update_all-Ranked rank loaded _ l.1 (upsert-Ranked rank name si services l.0 r)

update_loaded-Ranked :
    (rank : String → ℕ) (loaded : Option ServiceMap) (w : World)
    → LoadedRanked rank loaded
    → Ranked rank w.services
    → Ranked rank (update_loaded loaded w).services
update_loaded-Ranked rank none w l r = r
update_loaded-Ranked rank (some loaded) w l r = update_all-Ranked rank loaded w.services l r

module _ (net : Net) (rank : String → ℕ) (fuel : ℕ)
    (enough : (name : String) → rank name < fuel) where
  Ends-if :
      (b : Bool) (m n : Option World)
      → Ends net rank fuel enough m
      → Ends net rank fuel enough n
      → Ends net rank fuel enough (if b then m else n)
  Ends-if true m n e k = e
  Ends-if false m n e k = k

  change-Ends :
      (change : ServiceChange) (w : World)
      → Ranked rank w.services
      → Ends net rank fuel enough (apply_change net fuel change w)
  unfolding apply_change
  change-Ends (removed name) w r =
      Ends-map net rank fuel enough (teardown_invalidated_service net fuel name true w)
        (on_services (remove name)) (invalidated-Ends net rank fuel enough name true w r)
        (λ w'. removed-Ranked rank name w'.services)
  change-Ends (proxy_deps_changed name) w r = invalidated-Ends net rank fuel enough name false w r
  change-Ends (triggers_changed name) w r =
      (_, refl, all_backend_chains-Ranked net rank name none w r)
  change-Ends (reachability_changed name) w r =
      Ends-map net rank fuel enough (teardown_chain net fuel name all_clients w)
        (teardown_all_backend_chains_for net name none)
        (chain-Ends net rank fuel enough name all_clients w r)
        (all_backend_chains-Ranked net rank name none)
  change-Ends (replicas_removed name ip) w r =
      Ends-if (all_on_ip ip (get_registered name w.services)) _ _
        (invalidated-Ends net rank fuel enough name true w r)
        (Ends-map net rank fuel enough _ (on_services (modify name (remove_replicas_on_ip ip)))
          (partial-Ends net rank fuel enough name (on_ip ip) _ (
            backend_chains-Ranked net rank name (ids_on_ip ip (get_registered name w.services)) none
              w r))
          (λ w'.
            modified-Ranked rank name (remove_replicas_on_ip ip) w'.services
              (remove_replicas_on_ip-deps ip)))
  change-Ends (replica_removed name ip docker) w r =
      Ends-if (has_one_replica (get_registered name w.services)) _ _
        (invalidated-Ends net rank fuel enough name true w r)
        (Ends-map net rank fuel enough _ (on_services (modify name (remove_replica ip docker)))
          (partial-Ends net rank fuel enough name (on_replica ip docker) _
            (backend_chain-Ranked net rank (name, ip, docker) none w r))
          (λ w'.
            modified-Ranked rank name (remove_replica ip docker) w'.services
              (remove_replica-deps ip docker)))
  change-Ends (proxy_disconnected ip) w r =
      for_each-Ends net rank fuel enough (λ name. teardown_chain net fuel name (by_ip ip))
        (λ name. chain-Ends net rank fuel enough name (by_ip ip)) (services_via ip w.services) w r
  change-Ends (proxy_client_timed_out name client) w r =
      chain-Ends net rank fuel enough name (by_client client) w r

  -- Where every proxy dependency ranks below its service, in the world and in the loaded services,
  -- fuel above every rank is enough: `apply_changes` returns a world for any list of changes, and in
  -- that world every dependency ranks below its service again.
  pub apply_changes_ends :
      (changes : List ServiceChange) (loaded : Option ServiceMap) (w : World)
      → Ranked rank w.services
      → LoadedRanked rank loaded
      → (w' : World) × (apply_changes net fuel changes loaded w ≡ some w') × Ranked rank w'.services
  unfolding apply_changes
  apply_changes_ends changes loaded w r l =
      Ends-map net rank fuel enough (for_each (apply_change net fuel) changes w)
        (update_loaded loaded)
        (for_each-Ends net rank fuel enough (apply_change net fuel) change-Ends changes w r)
        (λ w'. update_loaded-Ranked rank loaded w' l)
