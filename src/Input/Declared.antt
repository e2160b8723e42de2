-- ===== src/Input/Declared.antt =====
-- Which services the configuration makes entry points (src/services/input.rs).
use nullnet_grpc.Base.{
  ℕ, ◌≡◌, refl, String, Bool, false, ◌||◌, none, List, [], ◌∷◌, ◌==◌, string_eq, any, is_some,
  if◌then◌else◌, arith,
}
use nullnet_grpc.Base.HashMap.{HashMap, get, insert, get-insert}
use nullnet_grpc.Base.Results.{◌>>=◌}
use nullnet_grpc.Input.{
  ServiceToml, ServicesToml, proxy_accum, trigger_dep_names, add_proxy_deps, add_trigger_deps,
  declared_info, add_declared, services_map,
}
use nullnet_grpc.ServiceInfo.{ServiceInfo, ServiceMap, timeout, new_service_info}

-- Whether the service is an entry point: it is known and has a timeout.
abbrev pub is_entry_point : String → ServiceMap → Bool
is_entry_point name m = is_some (get name m >>= timeout)

is_entry_point-insert :
    (name j : String) (si : ServiceInfo) (m : ServiceMap)
    → is_entry_point name (insert j si m)
      ≡ (if j == name then is_some (timeout si) else is_entry_point name m)
is_entry_point-insert name j si m = rw (get-insert j name si m) (ground arith)

add_proxy_deps-entry :
    (name : String) (acc : HashMap String (List String)) (m : ServiceMap)
    → is_entry_point name m ≡ false
    → is_entry_point name (add_proxy_deps acc m) ≡ false
unfolding add_proxy_deps
add_proxy_deps-entry name [] m h = h
add_proxy_deps-entry name ((j, proxy) ∷ acc) m h =
    add_proxy_deps-entry name acc (insert j (new_service_info proxy [] none none) m)
      (ground (arith, is_entry_point-insert name j (new_service_info proxy [] none none) m))

add_trigger_deps-entry :
    (name : String) (names : List String) (m : ServiceMap)
    → is_entry_point name m ≡ false
    → is_entry_point name (add_trigger_deps names m) ≡ false
unfolding add_trigger_deps
add_trigger_deps-entry name [] m h = h
add_trigger_deps-entry name (j ∷ names) m h =
    add_trigger_deps-entry name names _
      (ground (arith, is_entry_point-insert name j (new_service_info [] [] none none) m))

add_declared-entry :
    (default_timeout : ℕ) (name : String) (ss : List ServiceToml) (m : ServiceMap)
    → is_entry_point name (add_declared default_timeout ss m)
      ≡ (any (λ (s : ServiceToml). s.name == name) ss || is_entry_point name m)
unfolding add_declared declared_info
add_declared-entry default_timeout name [] m = ground arith
add_declared-entry default_timeout name (s ∷ ss) m = ground (
  arith,
  add_declared-entry default_timeout name ss (insert s.name (declared_info default_timeout s) m),
  is_entry_point-insert name s.name (declared_info default_timeout s) m,
)

-- A service has a timeout, and so is an entry point, exactly if it is declared explicitly; a
-- service that is only named as a dependency is none.
pub services_map-entry_points :
    (default_timeout : ℕ) (toml : ServicesToml) (name : String)
    → is_entry_point name (services_map default_timeout toml)
      ≡ any (λ (s : ServiceToml). s.name == name) toml.services
unfolding services_map get
services_map-entry_points default_timeout toml name = ground (
  arith,
  add_declared-entry default_timeout name toml.services (
      add_trigger_deps (trigger_dep_names toml.services)
        (add_proxy_deps (proxy_accum toml.services []) [])),
  add_trigger_deps-entry name (trigger_dep_names toml.services)
      (add_proxy_deps (proxy_accum toml.services []) []),
  add_proxy_deps-entry name (proxy_accum toml.services []) [] refl,
)
