-- ===== src/Changes/Kept/One.antt =====
-- One service under `apply_changes` (src/services/changes.rs, src/services/service_info.rs).
use nullnet_grpc.Base.{
  String, ◌≡◌, refl, Bool, not, Option, none, some, List, [], ◌∷◌, All, inl, inr, Option-cases,
  Bool-cases, string_eq, option_eq, nat_eq, ◌==◌, IpAddr,
}
use nullnet_grpc.Base.HashMap.{get}
use nullnet_grpc.Proto.{Net}
use nullnet_grpc.Orchestrator.{Orchestrator}
use nullnet_grpc.Clients.{Client, client_eq, remove_active_chains}
use nullnet_grpc.ServiceInfo.{
  Replica, RegisteredServiceInfo, ServiceInfo, unregistered, registered, OwnedClient, unregister,
  keep_replicas, remove_replicas_on_ip, remove_replica, decrement_first, decrement_chain,
  decrement_entry, remove_client, has_client, drop_client, map_clients, update_first,
  all_clients_owned, matches_identity,
}
use nullnet_grpc.Changes.{
  World, DepEdge, as_registered, get_registered, decrement_edge, fail_service, remove_clients,
}
use nullnet_grpc.Changes.Entry.{modify-at, remove-at, put-at, replace-at, update-at}
use nullnet_grpc.Changes.Kept.{Kept, Any, All-Any, All-retain}

-- A condition on one entry of the map of services, absent or not, that every write keeps.
pub record ClosedEntry (net : Net) (Q : Option ServiceInfo → Type 0) : Type 0 where
  pub decremented :
      (client : Client) (reg : RegisteredServiceInfo) (o : Orchestrator)
      → Q (some (registered reg))
      → Q (some (registered (decrement_chain net client reg o).0))
  pub forgotten :
      (ts : List OwnedClient) (reg : RegisteredServiceInfo)
      → Q (some (registered reg))
      → Q (some (registered (remove_clients ts reg)))
  pub failed : (reg : RegisteredServiceInfo) → Q (some (registered reg)) → Q (some (unregister reg))
  pub dropped : Q none
  pub node_lost :
      (ip : IpAddr) (si : ServiceInfo) → Q (some si) → Q (some (remove_replicas_on_ip ip si))
  pub replica_lost :
      (ip : IpAddr) (docker : Option String) (si : ServiceInfo)
      → Q (some si)
      → Q (some (remove_replica ip docker si))

module _ (net : Net) (Q : Option ServiceInfo → Type 0) (closed : ClosedEntry net Q)
    (name : String) where
  decrement_edge-at :
      (e : DepEdge) (w : World)
      → Q (get name w.services)
      → Q (get name (decrement_edge net e w).services)
  unfolding decrement_edge
  decrement_edge-at (client, dep) w q = elim (Option-cases (get_registered dep w.services)) [
    | inl absent ↦ rw (absent, decrement_edge) q
    | inr (reg, found) ↦
        rw (found, decrement_edge)
          (put-at Q name dep reg _ w.services found (closed.decremented client reg w.orchestrator)
            q)
  ]

  fail_service-at :
      (k : String) (w : World) → Q (get name w.services) → Q (get name (fail_service k w).services)
  fail_service-at k w q = elim (Option-cases (get_registered k w.services)) [
    | inl absent ↦ rw (absent, fail_service) q
    | inr (reg, found) ↦
        rw (found, fail_service)
          (replace-at Q name k reg (unregister reg) w.services found (closed.failed reg) q)
  ]

  pub entry-Kept : Kept net (λ w. Q (get name w.services)) Any
  entry-Kept = record {
    owned = λ k reg w e q. All-Any (all_clients_owned reg);
    decremented = decrement_edge-at;
    forgotten =
        λ k ts w q. update-at Q name k (remove_clients ts) w.services (closed.forgotten ts) q;
    torn_down = λ t w g q. q;
    failed = fail_service-at;
    dropped = λ k w q. remove-at Q name k w.services closed.dropped q;
    node_lost = λ k ip w q.
        modify-at Q name k (remove_replicas_on_ip ip) w.services (closed.node_lost ip) q;
    replica_lost = λ k ip docker w q.
        modify-at Q name k (remove_replica ip docker) w.services (closed.replica_lost ip docker) q;
  }

-- A condition on a replica that losing a client, or a chain of one, keeps.
pub record Closed (P : Replica → Type 0) : Type 0 where
  pub dropped : (client : Client) (r : Replica) → P r → P (drop_client client r)
  pub counted :
      (client : Client) (r : Replica) → P r → P (map_clients client (remove_active_chains 1) r)

-- The condition on each replica of an entry of the map of services.
abbrev pub OnReplicas : (Replica → Type 0) → Option ServiceInfo → Type 0
OnReplicas P none = Unit {0}
OnReplicas P (some (unregistered unreg)) = Unit {0}
OnReplicas P (some (registered reg)) = All P reg.replicas

pub not_registered-OnReplicas :
    (P : Replica → Type 0) (si : Option ServiceInfo) → as_registered si ≡ none → OnReplicas P si
not_registered-OnReplicas P none e = tt
not_registered-OnReplicas P (some (unregistered unreg)) e = tt
not_registered-OnReplicas P (some (registered reg)) e = cc

module _ (net : Net) (P : Replica → Type 0) (closed : Closed P) where
  decrement_first-All :
      (client : Client) (rs : List Replica) (o : Orchestrator)
      → All P rs
      → All P (decrement_first net client rs o).0
  unfolding decrement_first
  decrement_first-All client [] o a = tt
  decrement_first-All client (r ∷ rs) o a = elim (Option-cases (get client r.clients.clients)) [
    | inl absent ↦ rw (absent, decrement_first) (a.0, decrement_first-All client rs o a.1)
    | inr (ci, found) ↦
        rw (found, decrement_first)
          (elim (Bool-cases ((remove_active_chains 1 ci).active_chains == 0)) [
            | inl last ↦ rw (last, decrement_entry) (closed.dropped client r a.0, a.1)
            | inr more ↦ rw (more, decrement_entry) (closed.counted client r a.0, a.1)
          ])
  ]

  update_first-All :
      (p : Replica → Bool) (f : Replica → Replica) (rs : List Replica)
      → ((r : Replica) → P r → P (f r))
      → All P rs
      → All P (update_first p f rs)
  update_first-All p f [] h a = tt
  update_first-All p f (r ∷ rs) h a = elim (Bool-cases (p r)) [
    | inl hit ↦ rw (hit, update_first) (h r a.0, a.1)
    | inr miss ↦ rw (miss, update_first) (a.0, update_first-All p f rs h a.1)
  ]

  remove_clients-All :
      (ts : List OwnedClient) (reg : RegisteredServiceInfo)
      → All P reg.replicas
      → All P (remove_clients ts reg).replicas
  unfolding remove_client
  remove_clients-All [] reg a = a
  remove_clients-All (t ∷ ts) reg a = remove_clients-All ts (remove_client t.client reg) (
      update_first-All (has_client t.client) (drop_client t.client) reg.replicas
        (closed.dropped t.client) a)

  keep-OnReplicas :
      (reg : RegisteredServiceInfo) (rs : List Replica)
      → All P rs
      → OnReplicas P (some (keep_replicas reg rs))
  keep-OnReplicas reg [] a = tt
  keep-OnReplicas reg (r ∷ rs) a = a

  node_lost-OnReplicas :
      (ip : IpAddr) (si : ServiceInfo)
      → OnReplicas P (some si)
      → OnReplicas P (some (remove_replicas_on_ip ip si))
  unfolding remove_replicas_on_ip
  node_lost-OnReplicas ip (unregistered unreg) a = tt
  node_lost-OnReplicas ip (registered reg) a =
      keep-OnReplicas reg _ (All-retain P (λ (r : Replica). not (r.ip == ip)) reg.replicas a)

  replica_lost-OnReplicas :
      (ip : IpAddr) (docker : Option String) (si : ServiceInfo)
      → OnReplicas P (some si)
      → OnReplicas P (some (remove_replica ip docker si))
  unfolding remove_replica
  replica_lost-OnReplicas ip docker (unregistered unreg) a = tt
  replica_lost-OnReplicas ip docker (registered reg) a =
      keep-OnReplicas reg _
        (All-retain P (λ (r : Replica). not (matches_identity ip docker r)) reg.replicas a)

  replicas-ClosedEntry : ClosedEntry net (OnReplicas P)
  unfolding decrement_chain
  replicas-ClosedEntry = record {
    decremented = λ client reg o a. decrement_first-All client reg.replicas o a;
    forgotten = remove_clients-All;
    failed = λ reg a. tt;
    dropped = tt;
    node_lost = node_lost-OnReplicas;
    replica_lost = replica_lost-OnReplicas;
  }

  pub replicas-Kept : (name : String) → Kept net (λ w. OnReplicas P (get name w.services)) Any
  replicas-Kept = entry-Kept net (OnReplicas P) replicas-ClosedEntry

-- A service that is not there does not appear.
pub absent_service-Kept :
    (net : Net) (name : String) → Kept net (λ w. get name w.services ≡ none) Any
absent_service-Kept net =
    entry-Kept net (λ si. si ≡ none)
      (record {
        decremented = λ client reg o e. cc;
        forgotten = λ ts reg e. cc;
        failed = λ reg e. cc;
        dropped = refl;
        node_lost = λ ip si e. cc;
        replica_lost = λ ip docker si e. cc;
      })
