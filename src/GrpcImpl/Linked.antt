-- ===== src/GrpcImpl/Linked.antt =====
-- The shape of the chain of edges that a setup builds, and the replicas picked for it.
use mathlib.Core.List.{Memᴰ}
use nullnet_grpc.Base.HashMap.{get}
use nullnet_grpc.Base.{
  sym, ap, ◌∙◌, Bool, not, is_empty, min_by_key-Mem, some-injective, ◌≡◌, refl, String, true, false,
  Option, none, some, List, [], ◌∷◌, ◌≤◌, all, All, is_some, length, IpAddr, min_by_key-le,
  min_by_key-any, any, eq_iff, option_beq_iff, string_eq, option_eq, min_by_key, arith, ℕ,
}
use nullnet_grpc.Base.Results.{◌>>=◌}
use nullnet_grpc.Clients.{new_client, new_service}
use nullnet_grpc.Edge.{RegisteredEdge, new_registered}
use nullnet_grpc.ServiceInfo.{
  ServiceInfo, registered, unregistered, service_end, replica_end, Replica, RegisteredServiceInfo,
  ServiceMap, dep_end, linear_chain_from, build_linear_chain, matches_identity,
  pick_replica_least_clients,
}
use nullnet_grpc.GrpcImpl.Proxy.{register_edges}

-- The service is registered, and the identity is that of one of its replicas, which has the fewest
-- clients of them.
pub record IsServer (name : String) (services : ServiceMap) (ip : IpAddr) (docker : Option String)
    : Type 0 where
  pub reg : RegisteredServiceInfo
  pub replica : Replica
  pub is_registered : get name services ≡ some (registered reg)
  pub is_replica : Memᴰ replica reg.replicas
  pub has_fewest :
      All (λ (r : Replica). length replica.clients.clients ≤ length r.clients.clients) reg.replicas
  pub has_ip : ip ≡ replica.ip
  pub has_docker : docker ≡ replica.docker_container

-- Each edge starts at the service and replica that the one before leads to, and the servers are
-- replicas of the dependencies in their order.
abbrev pub Linked :
    ServiceMap → String → IpAddr → Option String → List String → List RegisteredEdge → Type 0
Linked services name ip docker [] [] = Unit {0}
Linked services name ip docker [] (e ∷ es) = ⊥
Linked services name ip docker (dep ∷ deps) [] = ⊥
Linked services name ip docker (dep ∷ deps) (e ∷ es) =
    (e.client ≡ (ip, new_service name ip docker))
    × (e.client_docker ≡ docker)
    × (e.server.1 ≡ new_client dep none)
    × IsServer dep services e.server.0 e.server_docker
    × Linked services dep e.server.0 e.server_docker deps es

-- Whether the service is registered with a replica.
abbrev pub has_replica : Option ServiceInfo → Bool
has_replica none = false
has_replica (some (unregistered unreg)) = false
has_replica (some (registered reg)) = not (is_empty reg.replicas)

-- What registering a chain gives: a linked chain, or nothing where a dependency has no replica.
abbrev pub Registers :
    String
    → IpAddr
    → Option String
    → List String
    → ServiceMap
    → Option (List RegisteredEdge)
    → Type 0
Registers name ip docker deps services (some es) =
    Linked services name ip docker deps es
    × (all (λ dep. has_replica (get dep services)) deps ≡ true)
Registers name ip docker deps services none =
    all (λ dep. has_replica (get dep services)) deps ≡ false

service_end-has_replica : (si : Option ServiceInfo) → is_some (service_end si).0 ≡ has_replica si
unfolding pick_replica_least_clients
service_end-has_replica none = refl
service_end-has_replica (some (unregistered unreg)) = refl
service_end-has_replica (some (registered reg)) = ends reg.replicas
  where
    ends :
        (rs : List Replica)
        → is_some (replica_end (min_by_key (λ (r : Replica). length r.clients.clients) rs)).0
          ≡ not (is_empty rs)
    ends [] = refl
    ends (r ∷ rs) = refl

picked-IsServer :
    (name : String) (services : ServiceMap) (reg : RegisteredServiceInfo) (o : Option Replica)
    (ip : IpAddr) (docker : Option String)
    → get name services ≡ some (registered reg)
    → pick_replica_least_clients reg ≡ o
    → replica_end o ≡ (some ip, docker)
    → IsServer name services ip docker
unfolding pick_replica_least_clients
picked-IsServer name services reg none ip docker found e ends = cc
picked-IsServer name services reg (some r) ip docker found e ends = record {
  reg = reg;
  replica = r;
  is_registered = found;
  is_replica = min_by_key-Mem (λ (x : Replica). length x.clients.clients) reg.replicas r e;
  has_fewest = min_by_key-le (λ (x : Replica). length x.clients.clients) reg.replicas r e;
  has_ip = some-injective _ _ (sym (ap (λ x. x.0) ends));
  has_docker = sym (ap (λ x. x.1) ends);
}

dep_end-IsServer :
    (name : String) (services : ServiceMap) (ip : IpAddr) (docker : Option String)
    (si : Option ServiceInfo)
    → get name services ≡ si
    → service_end si ≡ (some ip, docker)
    → IsServer name services ip docker
dep_end-IsServer name services ip docker none found ends = cc
dep_end-IsServer name services ip docker (some (unregistered unreg)) found ends = cc
dep_end-IsServer name services ip docker (some (registered reg)) found ends =
    picked-IsServer name services reg (pick_replica_least_clients reg) ip docker found refl ends

cons-Registers :
    (name : String) (ip there : IpAddr) (docker there_docker : Option String) (dep : String)
    (deps : List String) (services : ServiceMap) (rest : Option (List RegisteredEdge))
    → dep_end dep services ≡ (some there, there_docker)
    → Registers dep there there_docker deps services rest
    → Registers name ip docker (dep ∷ deps) services (
        rest >>= λ es. some (
          new_registered ip
            (new_service name ip docker)
            docker
            there
            (new_client dep none)
            there_docker
          ∷ es))
cons-Registers name ip there docker there_docker dep deps services rest e r =
    let here : has_replica (get dep services) ≡ true =
      sym (service_end-has_replica (get dep services)) ∙ ap (λ x. is_some x.0) e in
    elim rest
        as (λ m.
          Registers dep there there_docker deps services m
          → Registers name ip docker (dep ∷ deps) services (
              m >>= λ es. some (
                new_registered ip (new_service name ip docker) docker there (new_client dep none)
                  there_docker
                ∷ es))) [
                  | none ↦ λ q. rw (here, q) refl
                  | some es ↦ λ q. (
                    (
                      refl,
                      refl,
                      refl,
                      dep_end-IsServer dep services there there_docker (get dep services) refl e,
                      q.0,
                    ),
                    rw (here, q.1) refl,
                  )
                ]
      r

chain_edge-Registers :
    (name : String) (ip : IpAddr) (there : Option IpAddr) (docker there_docker : Option String)
    (dep : String) (deps : List String) (services : ServiceMap)
    → ((ip' : IpAddr)
        → Registers dep ip' there_docker deps services
            (register_edges (linear_chain_from deps dep (some ip') there_docker services)))
    → dep_end dep services ≡ (there, there_docker)
    → Registers name ip docker
        (dep ∷ deps)
        services
        (register_edges (linear_chain_from (dep ∷ deps) name (some ip) docker services))
unfolding register_edges linear_chain_from
chain_edge-Registers name ip none docker there_docker dep deps services ih e =
    let missing : has_replica (get dep services) ≡ false =
      sym (service_end-has_replica (get dep services)) ∙ ap (λ x. is_some x.0) e in
    rw e (rw missing refl)
chain_edge-Registers name ip (some there) docker there_docker dep deps services ih e =
    rw e (cons-Registers name ip there docker there_docker dep deps services _ e (ih there))

chain-Registers :
    (deps : List String) (name : String) (ip : IpAddr) (docker : Option String)
    (services : ServiceMap)
    → Registers name ip docker deps services
        (register_edges (linear_chain_from deps name (some ip) docker services))
unfolding register_edges linear_chain_from
chain-Registers [] name ip docker services = (tt, refl)
chain-Registers (dep ∷ deps) name ip docker services =
    chain_edge-Registers name ip (dep_end dep services).0 docker (dep_end dep services).1 dep deps
      services (λ there. chain-Registers deps dep there (dep_end dep services).1 services) refl

-- Registering the chain of a replica's dependencies gives a chain that is linked from that replica
-- on, each of its servers a replica of the dependency with the fewest clients, if every dependency
-- is registered with a replica, and fails if one is not.
pub build_linear_chain-Registers :
    (deps : List String) (name : String) (ip : IpAddr) (docker : Option String)
    (services : ServiceMap)
    → Registers name ip docker deps services
        (register_edges (build_linear_chain deps name ip docker services))
unfolding build_linear_chain
build_linear_chain-Registers deps name ip docker services =
    chain-Registers deps name ip docker services

-- What a pick gives: a replica with the fewest clients, or nothing where there is no replica.
abbrev pub Picks : RegisteredServiceInfo → Option Replica → Type 0
Picks reg (some r) =
    (any (matches_identity r.ip r.docker_container) reg.replicas ≡ true)
    × All (λ (other : Replica). length r.clients.clients ≤ length other.clients.clients)
        reg.replicas
Picks reg none = reg.replicas ≡ []

none_picked {ℓ} : {A : Type ℓ} (key : A → ℕ) (xs : List A) → min_by_key key xs ≡ none → xs ≡ []
none_picked key [] e = refl
none_picked key (x ∷ xs) e = cc

picked :
    (reg : RegisteredServiceInfo) (o : Option Replica)
    → pick_replica_least_clients reg ≡ o
    → Picks reg o
unfolding pick_replica_least_clients
picked reg none e = none_picked (λ (x : Replica). length x.clients.clients) reg.replicas e
picked reg (some r) e = (
  min_by_key-any (λ (x : Replica). length x.clients.clients)
      (matches_identity r.ip r.docker_container) reg.replicas r e
      (ground (arith, eq_iff r.ip r.ip, option_beq_iff r.docker_container r.docker_container)),
  min_by_key-le (λ (x : Replica). length x.clients.clients) reg.replicas r e,
)

-- The replica that is picked is one of the service's replicas and has the fewest clients of them;
-- none is picked only where the service has none.
pub pick_replica_least_clients-Picks :
    (reg : RegisteredServiceInfo) → Picks reg (pick_replica_least_clients reg)
pick_replica_least_clients-Picks reg = picked reg (pick_replica_least_clients reg) refl
