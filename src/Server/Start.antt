-- ===== src/Server/Start.antt =====
-- The start of the server from a configuration, and the addresses of its networks
-- (src/services/input.rs, src/net.rs).
use nullnet_grpc.Base.{
  ℕ, ◌^◌, ◌≡◌, ◌<◌, ◌≤◌, sym, String, none, List, [], ◌∷◌, All, arith, string_eq, inl, inr,
  Bool-cases, subst,
}
use nullnet_grpc.Base.HashMap.{HashMap, contains_key, All-insert}
use nullnet_grpc.Proto.{Net, vlan, vxlan}
use nullnet_grpc.NetIdPool.{max_net_id}
use nullnet_grpc.Net.{IpNetworkCrate, offset}
use nullnet_grpc.Net.Blocks.{block_no_overflow}
use nullnet_grpc.Clients.{Client, ClientInfo}
use nullnet_grpc.ServiceInfo.{Replica, ServiceInfo, ServiceMap, new_service_info, replicas}
use nullnet_grpc.ServiceInfo.Sound.{Sound, Below}
use nullnet_grpc.Changes.Kept.Sound.{SoundMap}
use nullnet_grpc.Input.{
  ServiceToml, ServicesToml, add_proxy_deps, add_trigger_deps, add_declared, declared_info,
  services_map, proxy_accum, trigger_dep_names,
}
use nullnet_grpc.Base.Results.{Result, Result-cases, ok-injective, ok-err, ok}
use nullnet_grpc.Input.Watch.{load, load_from, services_path}
use nullnet_grpc.Server.{Server, Reachable, new, start}
use nullnet_grpc.Server.Tasks.{All-map}
use nullnet_grpc.Server.Reach.{Reachable-Sound}

module _ (n : ℕ) where
  add_proxy_deps-Sound :
      (acc : HashMap String (List String)) (m : ServiceMap)
      → SoundMap n m
      → SoundMap n (add_proxy_deps acc m)
  unfolding add_proxy_deps
  add_proxy_deps-Sound [] m s = s
  add_proxy_deps-Sound ((name, proxy) ∷ acc) m s =
      add_proxy_deps-Sound acc _
        (All-insert (Sound n) name (new_service_info proxy [] none none) m (tt, tt) s)

  add_trigger_deps-Sound :
      (names : List String) (m : ServiceMap) → SoundMap n m → SoundMap n (add_trigger_deps names m)
  unfolding add_trigger_deps
  add_trigger_deps-Sound [] m s = s
  add_trigger_deps-Sound (name ∷ names) m s = elim (Bool-cases (contains_key name m)) [
    | inl known ↦ rw known (add_trigger_deps-Sound names m s)
    | inr new ↦ rw new (
        add_trigger_deps-Sound names _
          (All-insert (Sound n) name (new_service_info [] [] none none) m (tt, tt) s))
  ]

  add_declared-Sound :
      (default_timeout : ℕ) (ss : List ServiceToml) (m : ServiceMap)
      → SoundMap n m
      → SoundMap n (add_declared default_timeout ss m)
  unfolding add_declared declared_info
  add_declared-Sound default_timeout [] m h = h
  add_declared-Sound default_timeout (s ∷ ss) m h =
      add_declared-Sound default_timeout ss _
        (All-insert (Sound n) s.name (declared_info default_timeout s) m (tt, tt) h)

  -- The services of a configuration are sound: none of them has a replica yet.
  pub services_map-Sound :
      (default_timeout : ℕ) (toml : ServicesToml) → SoundMap n (services_map default_timeout toml)
  unfolding services_map
  services_map-Sound default_timeout toml = add_declared-Sound default_timeout toml.services _ (
      add_trigger_deps-Sound (trigger_dep_names toml.services) _
        (add_proxy_deps-Sound (proxy_accum toml.services []) [] tt))

-- Every network of a service's client entries lies in 10.0.0.0/8, and its addresses do not wrap.
abbrev pub InRange : Net → ServiceInfo → Type 0
InRange net si =
    All
      (λ (r : Replica).
        All
          (λ (e : Client × ClientInfo).
            (e.1.net_id ≤ max_net_id net) × (offset net e.1.net_id < 2 ^ 24))
          r.clients.clients)
      (replicas si)

in_range :
    (net : Net) (id : ℕ) → id ≤ max_net_id net → (id ≤ max_net_id net) × (offset net id < 2 ^ 24)
in_range vlan id h = (h, (block_no_overflow vlan id 0 h (omega arith)).1)
in_range vxlan id h = (h, (block_no_overflow vxlan id 0 h (omega arith)).1)

-- The same bounds in every state that is reached from sound services.
Reachable-InRange :
    (crate : IpNetworkCrate) (net : Net) (loaded : ServiceMap) (s : Server)
    → SoundMap 101 loaded
    → Reachable crate net (new loaded) s
    → All (λ (e : String × ServiceInfo). InRange net e.1) s.world.services
Reachable-InRange crate net loaded s l r =
    let sound = Reachable-Sound crate net loaded s l r in
    All-map _ (λ (e : String × ServiceInfo). InRange net e.1) s.world.services
      (λ e k.
        All-map (Below s.world.orchestrator.net_id_pool.next_fresh) _ (replicas e.1)
          (λ x b.
            All-map _ _ x.clients.clients
              (λ c low. in_range net c.1.net_id (omega (arith, low, sound.0.1.0.high))) b)
          k.1)
      sound.0.0

-- Whatever a load gives is sound.
pub load-Sound :
    (n : ℕ) (read : String → Result String) (parse : String → Result ServicesToml)
    (default_timeout : ℕ) (loaded : ServiceMap)
    → load read parse default_timeout ≡ ok loaded
    → SoundMap n loaded
unfolding load load_from
load-Sound n read parse default_timeout loaded e = elim (Result-cases (read services_path)) [
  | inr (msg, failed) ↦ absurd (ok-err (sym (rw (failed, load, load_from) at e)))
  | inl (text, found) ↦ elim (Result-cases (parse text)) [
    | inr (msg, failed) ↦ absurd (ok-err (sym (rw (found, failed, load, load_from) at e)))
    | inl (toml, parsed) ↦
        subst (SoundMap n) (ok-injective (rw (found, parsed, load, load_from) at e))
          (services_map-Sound n default_timeout toml)
  ]
]

-- In every state that the server reaches after a start from a configuration file, the network
-- identifier of every client entry is at most the largest that the pool gives, and its address block
-- lies in 10.0.0.0/8.
pub start-InRange :
    (crate : IpNetworkCrate) (net : Net) (read : String → Result String)
    (parse : String → Result ServicesToml) (default_timeout : ℕ) (started s : Server)
    → start read parse default_timeout ≡ ok started
    → Reachable crate net started s
    → All (λ (e : String × ServiceInfo). InRange net e.1) s.world.services
unfolding start
start-InRange crate net read parse default_timeout started s e r =
    elim (Result-cases (load read parse default_timeout)) [
      | inr (msg, failed) ↦ absurd (ok-err (sym (rw (failed, start) at e)))
      | inl (loaded, found) ↦
          Reachable-InRange crate net loaded s
            (load-Sound 101 read parse default_timeout loaded found)
            (subst (λ v. Reachable crate net v s) (sym (ok-injective (rw (found, start) at e))) r)
    ]
