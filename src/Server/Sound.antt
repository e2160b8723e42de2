-- ===== src/Server/Sound.antt =====
-- A condition on the whole server: its world, its tasks and its offers.
use nullnet_grpc.Base.{
  ℕ, zero, suc, ◌≡◌, ◌<◌, String, Option, none, some, some-injective, List, [], ◌∷◌, map, All, inl,
  inr, Option-cases, Bool-cases, is_some, string_eq, IpAddr, Ipv4Addr, subst,
}
use nullnet_grpc.Base.HashMap.{get, All-get, All-modify}
use nullnet_grpc.Proto.{Net, Upstream}
use nullnet_grpc.Clients.{Client, new_info}
use nullnet_grpc.Edge.{RegisteredEdge}
use nullnet_grpc.ServiceInfo.{
  RegisteredServiceInfo, ServiceInfo, unregistered, registered, ServiceMap, add_chain,
  add_client_to_replica, add_replica, is_client_setup, proxy_clients_count,
  find_reusable_network_on_proxy,
}
use nullnet_grpc.ServiceInfo.Sound.{Below, Sound, add_chain-Sound, add_client_to_replica-Sound}
use nullnet_grpc.ServiceInfo.Soundness.{add_replica-Sound}
use nullnet_grpc.ServiceInfo.Shared.{OfferedBelow, find_reusable-Below}
use nullnet_grpc.Changes.{World, DepEdge, ListedService, update_registered, collect_dep_chain_edges}
use nullnet_grpc.Changes.Kept.{Result}
use nullnet_grpc.Changes.Kept.Sound.{SoundMap, SoundWorld, update_registered-Sound}
use nullnet_grpc.GrpcImpl.{
  SharedNetwork, ProxyAction, reject, keep_session, share, set_up, share_or_set_up, reached,
  decide_registered, decide_service, share_network, add_chains, add_replicas,
}
use nullnet_grpc.GrpcImpl.EdgeTask.{starting}
use nullnet_grpc.Server.{Server, get_elem?}
use nullnet_grpc.Server.Tasks.{TaskBelow}

-- The world is sound, and the identifiers of tasks and offers are below the bound.
abbrev pub SoundServer : Net → ℕ → Server → Type 0
SoundServer net n s =
    SoundWorld net n s.world
    × All (TaskBelow n) s.tasks
    × All (λ (o : SharedNetwork). o.net_id < n) s.offers

pub get_elem-All {ℓ κ} :
    {A : Type ℓ} (P : A → Type κ) (xs : List A) (i : ℕ) (x : A)
    → get_elem? xs i ≡ some x
    → All P xs
    → P x
get_elem-All P [] i x e a = cc
get_elem-All P (y ∷ ys) zero x e a = subst P (some-injective _ _ e) a.0
get_elem-All P (y ∷ ys) (suc i) x e a = get_elem-All P ys i x e a.1

pub starting_below : (n : ℕ) (chain : List RegisteredEdge) → All (TaskBelow n) (map starting chain)
starting_below n [] = tt
starting_below n (e ∷ chain) = (tt, starting_below n chain)

pub add_chains-Sound :
    (n now : ℕ) (edges : List DepEdge) (services : ServiceMap)
    → SoundMap n services
    → SoundMap n (add_chains now edges services)
unfolding add_chains
add_chains-Sound n now [] services s = s
add_chains-Sound n now ((client, dep) ∷ edges) services s = add_chains-Sound n now edges _ (
    update_registered-Sound n dep (add_chain now client) services
      (λ reg r. add_chain-Sound n client reg r now) s)

pub add_replicas-Sound :
    (n : ℕ) (ip : IpAddr) (listed : List ListedService) (services : ServiceMap)
    → SoundMap n services
    → SoundMap n (add_replicas ip listed services)
unfolding add_replicas
add_replicas-Sound n ip [] services s = s
add_replicas-Sound n ip ((name, port, docker) ∷ listed) services s =
    add_replicas-Sound n ip listed _ (
      All-modify (Sound n) name (add_replica ip port docker) services
        (λ si h. add_replica-Sound n si h ip port docker) s)

-- The network that a decision offers.
abbrev pub ActionBelow : ℕ → ProxyAction → Type 0
ActionBelow n (reject e) = Unit {0}
ActionBelow n (keep_session upstream) = Unit {0}
ActionBelow n (share o) = o.net_id < n
ActionBelow n set_up = Unit {0}

offer_below :
    (n : ℕ) (offer : Option (Upstream × Ipv4Addr × Ipv4Addr × ℕ × IpAddr × Option String))
    → OfferedBelow n offer
    → ActionBelow n (share_or_set_up offer)
offer_below n none h = tt
offer_below n (some (upstream, client_net, server_net, net_id, ip, docker)) h = h

decide_registered-Below :
    (n : ℕ) (proxy_ip : IpAddr) (client : Client) (reg : RegisteredServiceInfo)
    → All (Below n) reg.replicas
    → ActionBelow n (decide_registered proxy_ip client reg)
decide_registered-Below n proxy_ip client reg a = elim (Option-cases (is_client_setup client reg)) [
  | inr (upstream, kept) ↦ rw (kept, decide_registered) tt
  | inl fresh ↦
      rw (fresh, decide_registered)
        (elim (Bool-cases (reached reg.max_networks (proxy_clients_count reg))) [
          | inl full ↦ rw full (
              offer_below n (find_reusable_network_on_proxy proxy_ip reg)
                (find_reusable-Below n proxy_ip reg a))
          | inr room ↦ rw room tt
        ])
]

pub decide_service_below :
    (n : ℕ) (proxy_ip : IpAddr) (client : Client) (name : String) (services : ServiceMap)
    (si : Option ServiceInfo)
    → get name services ≡ si
    → SoundMap n services
    → ActionBelow n (decide_service proxy_ip client si)
decide_service_below n proxy_ip client name services none e s = tt
decide_service_below n proxy_ip client name services (some (unregistered unreg)) e s =
    elim (Bool-cases (is_some unreg.timeout)) [
      | inl t ↦ rw (t, decide_service) tt
      | inr f ↦ rw (f, decide_service) tt
    ]
decide_service_below n proxy_ip client name services (some (registered reg)) e s =
    elim (Bool-cases (is_some reg.timeout)) [
      | inl t ↦
          rw (t, decide_service)
            (decide_registered-Below n proxy_ip client reg
              (All-get (Sound n) name services (registered reg) e s).1)
      | inr f ↦ rw (f, decide_service) tt
    ]

pub share_network-Sound :
    (net : Net) (n fuel now : ℕ) (name : String) (proxy_ip : IpAddr) (client : Client)
    (o : SharedNetwork) (w : World)
    → o.net_id < n
    → SoundWorld net n w
    → Result (SoundWorld net n) (share_network fuel now name proxy_ip client o w)
unfolding share_network
share_network-Sound net n fuel now name proxy_ip client o w low s =
    let ci = new_info now proxy_ip o.client_net o.server_net o.net_id 0 none in
    let joined = λ (reg : RegisteredServiceInfo).
      add_chain now client (add_client_to_replica o.replica_ip o.replica_docker client ci reg) in
    let services' = update_registered name joined w.services in
    let sound =
      update_registered-Sound n name joined w.services
        (λ reg r.
          add_chain-Sound n client _
            (add_client_to_replica-Sound n client reg r o.replica_ip o.replica_docker ci low) now)
        s.0 in
    elim (Option-cases
      (collect_dep_chain_edges fuel (name, o.replica_ip, o.replica_docker) services')) [
        | inl out ↦ rw out tt
        | inr (edges, walked) ↦ rw walked (add_chains-Sound n now edges services' sound, s.1)
      ]
