-- ===== src/Input/Known.antt =====
-- Which services the configuration makes known (src/services/input.rs).
use nullnet_grpc.Base.{
  ℕ, ◌≡◌, refl, String, Bool, ◌||◌, none, List, [], ◌∷◌, ◌++◌, ◌==◌, string_eq, eq_iff, any,
  flat_map, arith, inl, inr, Bool-cases,
}
use nullnet_grpc.Base.HashMap.{HashMap, get, insert, contains_key, get-insert}
use nullnet_grpc.Base.HashSet
use nullnet_grpc.Input.{
  TriggerToml, ServiceToml, ServicesToml, tail_after, accumulate, proxy_accum, trigger_dep_names,
  add_proxy_deps, add_trigger_deps, declared_info, add_declared, services_map,
}
use nullnet_grpc.ServiceInfo.{ServiceMap, new_service_info}

-- Whether the name is in the list.
abbrev pub named_in : String → List String → Bool
named_in name = any (λ d. d == name)

contains_key-insert {ℓ} :
    {V : Type ℓ} (name j : String) (v : V) (m : HashMap String V)
    → contains_key name (insert j v m) ≡ (j == name || contains_key name m)
unfolding contains_key
contains_key-insert name j v m = rw (get-insert j name v m) (ground arith)

any-append {ℓ} :
    {A : Type ℓ} (p : A → Bool) (xs ys : List A) → any p (xs ++ ys) ≡ (any p xs || any p ys)
any-append p [] ys = refl
any-append p (x ∷ xs) ys = ground (arith, any-append p xs ys)

accumulate-keys :
    (name : String) (all ds : List String) (acc : HashMap String (List String))
    → contains_key name (accumulate all ds acc) ≡ (named_in name ds || contains_key name acc)
unfolding accumulate
accumulate-keys name all [] acc = refl
accumulate-keys name all (d ∷ ds) acc = ground (
  arith,
  accumulate-keys name all ds (insert d (tail_after d all) acc),
  contains_key-insert name d (tail_after d all) acc,
)

proxy_accum-keys :
    (name : String) (ss : List ServiceToml) (acc : HashMap String (List String))
    → contains_key name (proxy_accum ss acc)
      ≡ (any (λ (s : ServiceToml). named_in name s.proxy_dependencies) ss || contains_key name acc)
unfolding proxy_accum
proxy_accum-keys name [] acc = refl
proxy_accum-keys name (s ∷ ss) acc = ground (
  arith,
  proxy_accum-keys name ss (accumulate s.proxy_dependencies s.proxy_dependencies acc),
  accumulate-keys name s.proxy_dependencies s.proxy_dependencies acc,
)

add_proxy_deps-keys :
    (name : String) (acc : HashMap String (List String)) (m : ServiceMap)
    → contains_key name (add_proxy_deps acc m) ≡ (contains_key name acc || contains_key name m)
unfolding add_proxy_deps contains_key get
add_proxy_deps-keys name [] m = refl
add_proxy_deps-keys name ((j, proxy) ∷ acc) m = ground (
  arith,
  add_proxy_deps-keys name acc (insert j (new_service_info proxy [] none none) m),
  contains_key-insert name j (new_service_info proxy [] none none) m,
)

add_trigger_deps-keys :
    (name : String) (names : List String) (m : ServiceMap)
    → contains_key name (add_trigger_deps names m) ≡ (named_in name names || contains_key name m)
unfolding add_trigger_deps
add_trigger_deps-keys name [] m = refl
add_trigger_deps-keys name (j ∷ names) m = ground (
  arith,
  add_trigger_deps-keys name names m,
  eq_iff j name,
  add_trigger_deps-keys name names (insert j (new_service_info [] [] none none) m),
  contains_key-insert name j (new_service_info [] [] none none) m,
)

add_declared-keys :
    (default_timeout : ℕ) (name : String) (ss : List ServiceToml) (m : ServiceMap)
    → contains_key name (add_declared default_timeout ss m)
      ≡ (any (λ (s : ServiceToml). s.name == name) ss || contains_key name m)
unfolding add_declared
add_declared-keys default_timeout name [] m = refl
add_declared-keys default_timeout name (s ∷ ss) m = ground (
  arith,
  add_declared-keys default_timeout name ss (insert s.name (declared_info default_timeout s) m),
  contains_key-insert name s.name (declared_info default_timeout s) m,
)

-- Whether the configuration names the service: declared, a proxy dependency, or in a trigger's chain.
abbrev pub mentions : String → ServiceToml → Bool
mentions name s =
    s.name == name
    || (named_in name s.proxy_dependencies
        || any (λ (t : TriggerToml). named_in name t.chain) s.triggers)

collect-members :
    (name : String) (xs : List String) → named_in name (HashSet.collect xs) ≡ named_in name xs
collect-members name [] = refl
collect-members name (x ∷ xs) = elim (Bool-cases (HashSet.contains x (HashSet.collect xs))) [
  | inl old ↦ rw old (
      ground (arith, collect-members name xs, contains-named x (HashSet.collect xs), eq_iff x name))
  | inr new ↦ rw new (ground (arith, collect-members name xs))
]
  where
    contains-named : (k : String) (ys : List String) → HashSet.contains k ys ≡ named_in k ys
    contains-named k [] = refl
    contains-named k (y ∷ ys) = ground (arith, contains-named k ys)

chain-members :
    (name : String) (ts : List TriggerToml)
    → named_in name (flat_map (λ (t : TriggerToml). t.chain) ts)
      ≡ any (λ (t : TriggerToml). named_in name t.chain) ts
chain-members name [] = refl
chain-members name (t ∷ ts) = ground (
  arith,
  chain-members name ts,
  any-append (λ d. d == name) t.chain (flat_map (λ (t : TriggerToml). t.chain) ts),
)

abbrev chains_of : ServiceToml → List String
chains_of s = flat_map (λ (t : TriggerToml). t.chain) s.triggers

-- The three ways to be named, taken together over all services.
any-mentions :
    (name : String) (ss : List ServiceToml)
    → (any (λ (s : ServiceToml). s.name == name) ss
        || (named_in name (flat_map chains_of ss)
            || any (λ (s : ServiceToml). named_in name s.proxy_dependencies) ss))
      ≡ any (mentions name) ss
any-mentions name [] = refl
any-mentions name (s ∷ ss) = ground (
  arith,
  any-mentions name ss,
  chain-members name s.triggers,
  any-append (λ d. d == name) (chains_of s) (flat_map chains_of ss),
)

-- The configured services are exactly those that some service of the file names: by declaring them,
-- by its proxy dependencies, or in the chain of one of its triggers.
pub services_map-mentions :
    (default_timeout : ℕ) (toml : ServicesToml) (name : String)
    → contains_key name (services_map default_timeout toml) ≡ any (mentions name) toml.services
unfolding services_map trigger_dep_names contains_key get
services_map-mentions default_timeout toml name =
    let proxied = proxy_accum toml.services [] in
    let triggered = trigger_dep_names toml.services in
    ground (
      arith,
      any-mentions name toml.services,
      collect-members name (flat_map chains_of toml.services),
      proxy_accum-keys name toml.services [],
      add_proxy_deps-keys name proxied [],
      add_trigger_deps-keys name triggered (add_proxy_deps proxied []),
      add_declared-keys default_timeout name toml.services
          (add_trigger_deps triggered (add_proxy_deps proxied [])),
    )
