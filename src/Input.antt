-- ===== src/Input.antt =====
-- src/services/input.rs: the services that services.toml declares, and the update of the running
-- services from it. Reading and watching the file, and the parse of TOML, are not modelled; the
-- environment variable TIMEOUT is an argument.
pub mod Declared
pub mod Known
pub mod Follows
pub mod Watch
use nullnet_grpc.Base.{
  ℕ, String, Bool, true, false, Option, none, some, List, [], ◌∷◌, ◌++◌, map, ◌==◌, string_eq,
  nat_eq, flat_map, unwrap_or, if◌then◌else◌,
}
use nullnet_grpc.Base.HashMap.{HashMap, insert, contains_key}
use nullnet_grpc.Base.HashSet
use nullnet_grpc.Proto.{Net}
use nullnet_grpc.ServiceInfo.{ServiceInfo, ServiceMap, new_service_info}
use nullnet_grpc.Changes.{World, detect_config_changes, apply_changes}

pub record TriggerToml : Type 0 where
  pub port : ℕ
  pub chain : List String

pub record ServiceToml : Type 0 where
  pub name : String
  pub timeout : Option ℕ
  pub proxy_dependencies : List String
  pub triggers : List TriggerToml
  pub max_networks : Option ℕ

pub record ServicesToml : Type 0 where
  pub services : List ServiceToml

-- The elements after the first occurrence.
unfoldable pub tail_after : String → List String → List String
tail_after elem [] = []
tail_after elem (d ∷ ds) = if d == elem then ds else tail_after elem ds

-- The tails that one service's list gives to its dependencies; a later write wins.
unfoldable pub accumulate :
    List String → List String → HashMap String (List String) → HashMap String (List String)
unfolding tail_after
accumulate all [] acc = acc
accumulate all (d ∷ ds) acc = accumulate all ds (insert d (tail_after d all) acc)

unfoldable pub proxy_accum :
    List ServiceToml → HashMap String (List String) → HashMap String (List String)
unfolding accumulate
proxy_accum [] acc = acc
proxy_accum (s ∷ ss) acc = proxy_accum ss (accumulate s.proxy_dependencies s.proxy_dependencies acc)

unfoldable pub trigger_dep_names : List ServiceToml → List String
trigger_dep_names services =
    HashSet.collect
      (flat_map (λ (s : ServiceToml). flat_map (λ (t : TriggerToml). t.chain) s.triggers) services)

unfoldable pub add_proxy_deps : HashMap String (List String) → ServiceMap → ServiceMap
add_proxy_deps [] m = m
add_proxy_deps ((name, proxy) ∷ acc) m =
    add_proxy_deps acc (insert name (new_service_info proxy [] none none) m)

unfoldable pub add_trigger_deps : List String → ServiceMap → ServiceMap
add_trigger_deps [] m = m
add_trigger_deps (name ∷ names) m =
    add_trigger_deps names
      (if contains_key name m then m else insert name (new_service_info [] [] none none) m)

-- `into_iter().map(…).collect()` into a map: a later trigger of a port wins.
unfoldable pub collect_triggers :
    List TriggerToml → HashMap ℕ (List String) → HashMap ℕ (List String)
collect_triggers [] m = m
collect_triggers (t ∷ ts) m = collect_triggers ts (insert t.port t.chain m)

unfoldable pub declared_info : ℕ → ServiceToml → ServiceInfo
unfolding collect_triggers
declared_info default_timeout s =
    new_service_info s.proxy_dependencies (collect_triggers s.triggers [])
      (some (unwrap_or s.timeout default_timeout)) s.max_networks

unfoldable pub add_declared : ℕ → List ServiceToml → ServiceMap → ServiceMap
unfolding declared_info
add_declared default_timeout [] m = m
add_declared default_timeout (s ∷ ss) m =
    add_declared default_timeout ss (insert s.name (declared_info default_timeout s) m)

unfoldable pub services_map : ℕ → ServicesToml → ServiceMap
unfolding proxy_accum trigger_dep_names add_proxy_deps add_trigger_deps add_declared
services_map default_timeout toml = add_declared default_timeout toml.services (
    add_trigger_deps (trigger_dep_names toml.services)
      (add_proxy_deps (proxy_accum toml.services []) []))

unfoldable pub apply_config_update : Net → ℕ → ℕ → ServiceMap → World → Option World
apply_config_update net fuel now loaded_services w =
    apply_changes net fuel (detect_config_changes now w.services loaded_services)
      (some loaded_services) w
