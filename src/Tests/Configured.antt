-- ===== src/Tests/Configured.antt =====
-- A concrete services.toml, and the sleep between two checks for timeouts.
use nullnet_grpc.Base.{◌≡◌, ◌≤◌, refl, none, some, [], ◌∷◌, All, any, string_eq}
use nullnet_grpc.Base.HashMap.{values, get, insert, contains_key}
use nullnet_grpc.ServiceInfo.{timeout, from_secs, new_service_info}
use nullnet_grpc.Input.{ServicesToml, services_map}
use nullnet_grpc.Input.Known.{mentions, services_map-mentions}
use nullnet_grpc.Timeout.{active_timeout, nearest_timeout}
use nullnet_grpc.Timeout.Nearest.{Covers, nearest_timeout-Covers}

abbrev pub toml : ServicesToml
toml = record {
  services =
      (record {
        name = "web";
        timeout = none;
        proxy_dependencies = "api" ∷ "db" ∷ [];
        triggers = (record { port = 5432; chain = "cache" ∷ [] }) ∷ [];
        max_networks = none;
      })
      ∷ [];
}

services_map-mentions_example :
    contains_key "cache" (services_map 30 toml) ≡ any (mentions "cache") toml.services
services_map-mentions_example = services_map-mentions 30 toml "cache"

nearest_timeout-Covers_example :
    (nearest_timeout 30 7 (services_map 30 toml) ≤ from_secs 30)
    × All
        (λ si.
          Covers 7 (nearest_timeout 30 7 (services_map 30 toml)) si (active_timeout (timeout si)))
        (values (services_map 30 toml))
nearest_timeout-Covers_example = nearest_timeout-Covers 30 7 (services_map 30 toml)

-- What the first dependency leads to is the rest of the list.
services_map_test :
    get "api" (services_map 30 toml) ≡ some (new_service_info ("db" ∷ []) [] none none)
unfolding services_map get insert contains_key
services_map_test = refl
