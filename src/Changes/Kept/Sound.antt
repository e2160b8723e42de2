-- ===== src/Changes/Kept/Sound.antt =====
-- A condition on a whole world: sound services, and a valid pool whose next fresh identifier is the
-- bound of theirs (src/services/changes.rs).
use nullnet_grpc.Base.{
  ℕ, String, ◌≡◌, ◌<◌, refl, sym, ◌∙◌, ◌&&◌, Option, none, some, List, [], ◌∷◌, All, inl, inr,
  Option-cases, Bool-cases, string_eq, nat_eq, ◌==◌, IpAddr, arith, leb, subst, some-injective,
}
use nullnet_grpc.Base.HashMap.{get, contains_key, All-get, All-insert, All-remove, All-modify}
use nullnet_grpc.Proto.{Net}
use nullnet_grpc.NetIdPool
use nullnet_grpc.NetIdPool.{NetIdPool, min_net_id, max_net_id, free}
use nullnet_grpc.NetIdPool.Invariant
use nullnet_grpc.NetIdPool.Invariant.{free_lem}
use nullnet_grpc.Orchestrator.{Orchestrator, send_net_teardown}
use nullnet_grpc.Orchestrator.Laws.{send_net_teardown-pool}
use nullnet_grpc.Clients.{Client, ClientInfo, client_eq, remove_active_chains}
use nullnet_grpc.ServiceInfo.{
  Replica, RegisteredServiceInfo, ServiceInfo, unregistered, registered, ServiceMap, OwnedClient,
  decrement_first, decrement_chain, decrement_entry, all_clients_owned, remove_client, unregister,
  remove_replicas_on_ip, remove_replica, update_from_file,
}
use nullnet_grpc.ServiceInfo.Sound.{Below, Sound, decrement_chain-Sound, remove_client-Sound}
use nullnet_grpc.ServiceInfo.Soundness.{
  OwnedBelow, owned-Below, remove_replicas_on_ip-Sound, remove_replica-Sound,
  update_from_file-Sound,
}
use nullnet_grpc.Changes.{
  World, DepEdge, as_registered, get_registered, put_registered, update_registered, fail_service,
  decrement_edge, remove_clients, update_all, update_loaded,
}
use nullnet_grpc.Changes.Kept.{Kept}

abbrev pub SoundMap : ℕ → ServiceMap → Type 0
SoundMap n services = All (λ (e : String × ServiceInfo). Sound n e.1) services

-- The pool is valid, and `n` is the next identifier that it never gave.
abbrev pub SoundPool : Net → ℕ → NetIdPool → Type 0
SoundPool net n p = NetIdPool.Invariant.IsValid net p × (p.next_fresh ≡ n)

abbrev pub SoundWorld : Net → ℕ → World → Type 0
SoundWorld net n w = SoundMap n w.services × SoundPool net n w.orchestrator.net_id_pool

free-next_fresh : (net : Net) (id : ℕ) (p : NetIdPool) → (free net id p).next_fresh ≡ p.next_fresh
unfolding free
free-next_fresh net id p = elim (Bool-cases (leb min_net_id id && leb id (max_net_id net))) [
  | inl range ↦ rw (range, free) refl
  | inr out ↦ rw (out, free) refl
]

free-SoundPool :
    (net : Net) (n id : ℕ) (p : NetIdPool)
    → id < n
    → SoundPool net n p
    → SoundPool net n (free net id p)
free-SoundPool net n id p low s =
    ((free_lem net p id s.0 (omega (arith, low, s.1))).0, free-next_fresh net id p ∙ s.1)

pub teardown-SoundPool :
    (net : Net) (n : ℕ) (client : IpAddr) (client_docker : Option String) (server : IpAddr)
    (server_docker : Option String) (id : ℕ) (o : Orchestrator)
    → id < n
    → SoundPool net n o.net_id_pool
    → SoundPool net n
        (send_net_teardown net client client_docker server server_docker id o).net_id_pool
teardown-SoundPool net n client client_docker server server_docker id o low s =
    subst (SoundPool net n)
      (sym (send_net_teardown-pool net client client_docker server server_docker id o))
      (free-SoundPool net n id o.net_id_pool low s)

-- A lookup in a sound map.
pub registered-Sound :
    (n : ℕ) (name : String) (services : ServiceMap) (reg : RegisteredServiceInfo)
    → get_registered name services ≡ some reg
    → SoundMap n services
    → Sound n (registered reg)
registered-Sound n name services reg e s = go (get name services) refl e
  where
    go :
        (si : Option ServiceInfo)
        → get name services ≡ si
        → as_registered si ≡ some reg
        → Sound n (registered reg)
    go none f h = cc
    go (some (unregistered unreg)) f h = cc
    go (some (registered r)) f h =
        subst (λ x. Sound n (registered x)) (some-injective _ _ h)
          (All-get (Sound n) name services (registered r) f s)

pub put_registered-Sound :
    (n : ℕ) (name : String) (reg : RegisteredServiceInfo) (services : ServiceMap)
    → Sound n (registered reg)
    → SoundMap n services
    → SoundMap n (put_registered name reg services)
put_registered-Sound n name reg services r s =
    All-modify (Sound n) name (λ _. registered reg) services (λ si h. r) s

pub update_registered-Sound :
    (n : ℕ) (name : String) (f : RegisteredServiceInfo → RegisteredServiceInfo)
    (services : ServiceMap)
    → ((reg : RegisteredServiceInfo) → Sound n (registered reg) → Sound n (registered (f reg)))
    → SoundMap n services
    → SoundMap n (update_registered name f services)
update_registered-Sound n name f services h s = elim (Option-cases (get_registered name services)) [
  | inl absent ↦ rw (absent, update_registered) s
  | inr (reg, found) ↦
      rw (found, update_registered)
        (put_registered-Sound n name (f reg) services
          (h reg (registered-Sound n name services reg found s)) s)
]

module _ (net : Net) (n : ℕ) where
  decrement_first-SoundPool :
      (client : Client) (rs : List Replica) (o : Orchestrator)
      → All (Below n) rs
      → SoundPool net n o.net_id_pool
      → SoundPool net n (decrement_first net client rs o).1.net_id_pool
  unfolding decrement_first
  decrement_first-SoundPool client [] o b s = s
  decrement_first-SoundPool client (r ∷ rs) o b s =
      elim (Option-cases (get client r.clients.clients)) [
        | inl absent ↦ rw (absent, decrement_first) (decrement_first-SoundPool client rs o b.1 s)
        | inr (ci, found) ↦
            rw (found, decrement_first)
              (elim (Bool-cases ((remove_active_chains 1 ci).active_chains == 0)) [
                | inl last ↦
                    rw (last, decrement_entry)
                      (teardown-SoundPool net n ci.client_ip ci.docker_container r.ip
                        r.docker_container ci.net_id o
                        (All-get (λ (c : ClientInfo). c.net_id < n) client r.clients.clients ci
                          found b.0)
                        s)
                | inr more ↦ rw (more, decrement_entry) s
              ])
      ]

  pub decrement_edge-Sound :
      (e : DepEdge) (w : World) → SoundWorld net n w → SoundWorld net n (decrement_edge net e w)
  unfolding decrement_edge decrement_chain
  decrement_edge-Sound (client, dep) w s = elim (Option-cases (get_registered dep w.services)) [
    | inl absent ↦ rw (absent, decrement_edge) s
    | inr (reg, found) ↦
        let r = registered-Sound n dep w.services reg found s.0 in
        rw (found, decrement_edge)
          (
            put_registered-Sound n dep (decrement_chain net client reg w.orchestrator).0 w.services
                (decrement_chain-Sound n net client reg w.orchestrator r) s.0,
            decrement_first-SoundPool client reg.replicas w.orchestrator r.1 s.1,
          )
  ]

  remove_clients-Sound :
      (ts : List OwnedClient) (reg : RegisteredServiceInfo)
      → Sound n (registered reg)
      → Sound n (registered (remove_clients ts reg))
  remove_clients-Sound [] reg r = r
  remove_clients-Sound (t ∷ ts) reg r =
      remove_clients-Sound ts (remove_client t.client reg) (remove_client-Sound n t.client reg r)

  fail_service-Sound :
      (name : String) (w : World) → SoundWorld net n w → SoundWorld net n (fail_service name w)
  fail_service-Sound name w s = elim (Option-cases (get_registered name w.services)) [
    | inl absent ↦ rw (absent, fail_service) s
    | inr (reg, found) ↦
        rw (found, fail_service)
          (All-insert (Sound n) name (unregister reg) w.services (tt, tt) s.0, s.1)
  ]

  pub world-Kept : Kept net (SoundWorld net n) (OwnedBelow n)
  unfolding all_clients_owned
  world-Kept = record {
    owned = λ name reg w e s.
        owned-Below n reg.replicas (registered-Sound n name w.services reg e s.0).1;
    decremented = decrement_edge-Sound;
    forgotten = λ name ts w s. (
      update_registered-Sound n name (remove_clients ts) w.services (remove_clients-Sound ts) s.0,
      s.1,
    );
    torn_down = λ t w low s. (
      s.0,
      teardown-SoundPool net n t.info.client_ip t.info.docker_container t.replica_ip
          t.replica_docker t.info.net_id w.orchestrator low s.1,
    );
    failed = fail_service-Sound;
    dropped = λ name w s. (All-remove (Sound n) name w.services s.0, s.1);
    node_lost = λ name ip w s. (
      All-modify (Sound n) name (remove_replicas_on_ip ip) w.services
          (λ si h. remove_replicas_on_ip-Sound n si h ip) s.0,
      s.1,
    );
    replica_lost = λ name ip docker w s. (
      All-modify (Sound n) name (remove_replica ip docker) w.services
          (λ si h. remove_replica-Sound n si h ip docker) s.0,
      s.1,
    );
  }

  update_all-Sound :
      (loaded services : ServiceMap)
      → SoundMap n loaded
      → SoundMap n services
      → SoundMap n (update_all loaded services)
  unfolding update_all
  update_all-Sound [] services l s = s
  update_all-Sound ((name, si) ∷ loaded) services l s =
      elim (Bool-cases (contains_key name services)) [
        | inl known ↦ rw known (
            update_all-Sound loaded _ l.1 (
              All-modify (Sound n) name (update_from_file si) services
                (λ x h. update_from_file-Sound n x h si) s))
        | inr new ↦
            rw new (update_all-Sound loaded _ l.1 (All-insert (Sound n) name si services l.0 s))
      ]

  -- The services that a configuration gives are sound.
  abbrev pub SoundLoaded : Option ServiceMap → Type 0
  SoundLoaded none = Unit {0}
  SoundLoaded (some loaded) = SoundMap n loaded

  pub update_loaded-Sound :
      (loaded : Option ServiceMap) (w : World)
      → SoundLoaded loaded
      → SoundWorld net n w
      → SoundWorld net n (update_loaded loaded w)
  update_loaded-Sound none w l s = s
  update_loaded-Sound (some loaded) w l s = (update_all-Sound loaded w.services l s.0, s.1)
