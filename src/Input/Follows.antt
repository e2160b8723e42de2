-- ===== src/Input/Follows.antt =====
-- The services after an update from the configuration (src/services/input.rs,
-- src/services/changes.rs).
use nullnet_grpc.Base.{
  ℕ, ◌≡◌, ◌<◌, refl, subst, inl, inr, String, some, List, [], ◌∷◌, Bool-cases, string_eq, ◌==◌,
  arith, eq_iff,
}
use mathlib.Core.Option
use nullnet_grpc.Base.HashMap.{HashMap, get, insert, contains_key, get-insert}
use nullnet_grpc.Proto.{Net}
use nullnet_grpc.ServiceInfo.{ServiceMap, ServiceInfo}
use nullnet_grpc.Changes.{World, detect_config_changes}
use nullnet_grpc.Changes.Walk.{Ranked}
use nullnet_grpc.Changes.Walk.Ending.{LoadedRanked, apply_changes_ends}
use nullnet_grpc.Changes.Kept.{Result}
use nullnet_grpc.Changes.After.Loaded.{config, DistinctKeys, SameConfig, loaded-SameConfig}
use nullnet_grpc.Base.Results.{Result as Parsed, ok}
use nullnet_grpc.Base.{true, ◌+◌, ◌*◌, ◌≤◌, All, ◌∷◌}
use nullnet_grpc.Input.Watch.{
  Watch, WatchEvent, WatchReadings, modified, watch, on_modified, load, load_from, services_path,
  is_settled, nanos_per_milli, IsEarly, watch-early,
}
use nullnet_grpc.Input.{
  ServiceToml, ServicesToml, add_proxy_deps, add_trigger_deps, add_declared, declared_info,
  services_map, proxy_accum, trigger_dep_names, apply_config_update,
}

insert-DistinctKeys :
    (k : String) (si : ServiceInfo) (m : ServiceMap) → DistinctKeys m → DistinctKeys (insert k si m)
unfolding insert contains_key get
insert-DistinctKeys k si [] d = (refl, tt)
insert-DistinctKeys k si ((j, sj) ∷ m) d = elim (Bool-cases (j == k)) [
  | inl here ↦ rw here d
  | inr elsewhere ↦ rw elsewhere (
    rw (get-insert k j si m) (ground (arith, eq_iff j k, eq_iff k j, d.0, elsewhere)),
    insert-DistinctKeys k si m d.1,
  )
]

add_proxy_deps-DistinctKeys :
    (acc : HashMap String (List String)) (m : ServiceMap)
    → DistinctKeys m
    → DistinctKeys (add_proxy_deps acc m)
unfolding add_proxy_deps
add_proxy_deps-DistinctKeys [] m d = d
add_proxy_deps-DistinctKeys ((name, proxy) ∷ acc) m d =
    add_proxy_deps-DistinctKeys acc _ (insert-DistinctKeys name _ m d)

add_trigger_deps-DistinctKeys :
    (names : List String) (m : ServiceMap)
    → DistinctKeys m
    → DistinctKeys (add_trigger_deps names m)
unfolding add_trigger_deps
add_trigger_deps-DistinctKeys [] m d = d
add_trigger_deps-DistinctKeys (name ∷ names) m d = elim (Bool-cases (contains_key name m)) [
  | inl known ↦ rw known (add_trigger_deps-DistinctKeys names m d)
  | inr new ↦ rw new (add_trigger_deps-DistinctKeys names _ (insert-DistinctKeys name _ m d))
]

add_declared-DistinctKeys :
    (default_timeout : ℕ) (ss : List ServiceToml) (m : ServiceMap)
    → DistinctKeys m
    → DistinctKeys (add_declared default_timeout ss m)
unfolding add_declared
add_declared-DistinctKeys default_timeout [] m d = d
add_declared-DistinctKeys default_timeout (s ∷ ss) m d =
    add_declared-DistinctKeys default_timeout ss _
      (insert-DistinctKeys s.name (declared_info default_timeout s) m d)

services_map-DistinctKeys :
    (default_timeout : ℕ) (toml : ServicesToml) → DistinctKeys (services_map default_timeout toml)
unfolding services_map
services_map-DistinctKeys default_timeout toml =
    add_declared-DistinctKeys default_timeout toml.services _ (
      add_trigger_deps-DistinctKeys (trigger_dep_names toml.services) _
        (add_proxy_deps-DistinctKeys (proxy_accum toml.services []) [] tt))

-- Where the proxy dependencies of the services and of the configuration are ranked and the fuel is
-- enough, an update from the configuration returns, and afterwards the services are exactly those of
-- the configuration, each with the dependencies, triggers, timeout and limit that it has there.
pub apply_config_update-SameConfig :
    (net : Net) (rank : String → ℕ) (fuel : ℕ) (enough : (name : String) → rank name < fuel)
    (now default_timeout : ℕ) (toml : ServicesToml) (w : World)
    → Ranked rank w.services
    → LoadedRanked rank (some (services_map default_timeout toml))
    → (w' : World) × (apply_config_update net fuel now (services_map default_timeout toml) w
        ≡ some w')
      × SameConfig w'.services (services_map default_timeout toml)
unfolding apply_config_update
apply_config_update-SameConfig net rank fuel enough now default_timeout toml w r l =
    let loaded = services_map default_timeout toml in
    let changes = detect_config_changes now w.services loaded in
    let (w', e, r') = apply_changes_ends net rank fuel enough changes (some loaded) w r l in
    (
      w',
      e,
      λ name.
          subst
            (Result
              (λ v. Option.map config (get name v.services) ≡ Option.map config (get name loaded)))
            e
            (loaded-SameConfig net fuel now loaded w name
              (services_map-DistinctKeys default_timeout toml)),
    )

-- Where the proxy dependencies of the services and of the file are ranked and the fuel is enough: if
-- a modification is received at least 101 milliseconds after the last update and the file then loads,
-- and the events that follow come within 101 milliseconds of the update, the watch handles them all,
-- and afterwards the services are exactly those of the file; the time of the last update is that of
-- this one, and the timeouts' task was notified once.
pub watch-SameConfig :
    (net : Net) (rank : String → ℕ) (fuel : ℕ) (enough : (name : String) → rank name < fuel)
    (parse : String → Parsed ServicesToml) (default_timeout : ℕ) (rd : WatchReadings)
    (later : List (WatchEvent × WatchReadings)) (s : Watch) (text : String) (toml : ServicesToml)
    → Ranked rank s.world.services
    → LoadedRanked rank (some (services_map default_timeout toml))
    → s.last_update_time + 101 * nanos_per_milli ≤ rd.received
    → rd.read services_path ≡ ok text
    → parse text ≡ ok toml
    → All (IsEarly rd.done) later
    → (s' : Watch) × (watch parse net fuel default_timeout ((modified, rd) ∷ later) s ≡ some s')
      × SameConfig s'.world.services (services_map default_timeout toml)
      × (s'.last_update_time ≡ rd.done)
      × (s'.notified ≡ s.notified + 1)
unfolding watch on_modified load load_from
watch-SameConfig net rank fuel enough parse default_timeout rd later s text toml r l late read
      parsed early =
    let (w', e, same) =
      apply_config_update-SameConfig net rank fuel enough rd.now default_timeout toml s.world r l in
    let s' : Watch = record { world = w'; last_update_time = rd.done; notified = s.notified + 1 } in
    let settled : is_settled rd.received s.last_update_time ≡ true = ground (arith, late) in
    let loads : load rd.read parse default_timeout ≡ ok (services_map default_timeout toml) =
      rw (read, load_from) (rw parsed refl) in
    let updated : on_modified parse net fuel default_timeout rd s ≡ some s' =
      rw (settled, loads) (rw e refl) in
    (
      s',
      rw (updated, watch) (watch-early parse net fuel default_timeout later s' early),
      same,
      refl,
      refl,
    )
