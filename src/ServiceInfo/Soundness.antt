-- ===== src/ServiceInfo/Soundness.antt =====
-- The condition on a service under the operations on its replicas, and what it says of its client
-- entries (src/services/service_info.rs).
use nullnet_grpc.Base.{
  ℕ, ◌<◌, String, Bool, not, Option, none, List, [], ◌∷◌, ◌==◌, string_eq, option_eq, map, retain,
  any, All, All-append, flat_map, inl, inr, Bool-cases, IpAddr, arith,
}
use nullnet_grpc.Clients.{Client, ClientInfo}
use nullnet_grpc.ServiceInfo.{
  Replica, RegisteredServiceInfo, ServiceInfo, unregistered, registered, replicas, matches_identity,
  update_first, new_replica, keep_replicas, add_replica, remove_replicas_on_ip, remove_replica,
  update_from_file, OwnedClient, owned_on,
}
use nullnet_grpc.ServiceInfo.Invariant.{operations-IsValid}
use nullnet_grpc.ServiceInfo.Sound.{Below, Sound}

All-retain {ℓ κ} :
    {A : Type ℓ} (Q : A → Type κ) (p : A → Bool) (xs : List A) → All Q xs → All Q (retain p xs)
All-retain Q p [] a = tt
All-retain Q p (x ∷ xs) a = ground (arith, All-retain Q p xs a.1)

keep_replicas-Below :
    (n : ℕ) (reg : RegisteredServiceInfo) (kept : List Replica)
    → All (Below n) kept
    → All (Below n) (replicas (keep_replicas reg kept))
keep_replicas-Below n reg [] a = tt
keep_replicas-Below n reg (r ∷ rs) a = a

remove_replicas_on_ip-Below :
    (n : ℕ) (ip : IpAddr) (si : ServiceInfo)
    → All (Below n) (replicas si)
    → All (Below n) (replicas (remove_replicas_on_ip ip si))
unfolding remove_replicas_on_ip
remove_replicas_on_ip-Below n ip (unregistered unreg) a = tt
remove_replicas_on_ip-Below n ip (registered reg) a =
    keep_replicas-Below n reg _ (All-retain (Below n) (λ r. not (r.ip == ip)) reg.replicas a)

remove_replica-Below :
    (n : ℕ) (ip : IpAddr) (docker : Option String) (si : ServiceInfo)
    → All (Below n) (replicas si)
    → All (Below n) (replicas (remove_replica ip docker si))
unfolding remove_replica
remove_replica-Below n ip docker (unregistered unreg) a = tt
remove_replica-Below n ip docker (registered reg) a =
    keep_replicas-Below n reg _
      (All-retain (Below n) (λ r. not (matches_identity ip docker r)) reg.replicas a)

update_from_file-Below :
    (n : ℕ) (loaded si : ServiceInfo)
    → All (Below n) (replicas si)
    → All (Below n) (replicas (update_from_file loaded si))
unfolding update_from_file
update_from_file-Below n loaded (unregistered unreg) a = tt
update_from_file-Below n loaded (registered reg) a = a

set_port-Below :
    (n : ℕ) (ip : IpAddr) (port : ℕ) (docker : Option String) (rs : List Replica)
    → All (Below n) rs
    → All (Below n) (update_first (matches_identity ip docker) (λ r. record r { port = port }) rs)
set_port-Below n ip port docker [] a = tt
set_port-Below n ip port docker (r ∷ rs) a = elim (Bool-cases (matches_identity ip docker r)) [
  | inl hit ↦ rw hit a
  | inr miss ↦ rw miss (a.0, set_port-Below n ip port docker rs a.1)
]

add_replica-Below :
    (n : ℕ) (ip : IpAddr) (port : ℕ) (docker : Option String) (si : ServiceInfo)
    → All (Below n) (replicas si)
    → All (Below n) (replicas (add_replica ip port docker si))
unfolding add_replica
add_replica-Below n ip port docker (unregistered unreg) a = (tt, tt)
add_replica-Below n ip port docker (registered reg) a =
    elim (Bool-cases (any (matches_identity ip docker) reg.replicas)) [
      | inl old ↦ rw old (set_port-Below n ip port docker reg.replicas a)
      | inr new ↦
          rw new (All-append (Below n) reg.replicas (new_replica ip port docker ∷ []) a (tt, tt))
    ]

module _ (n : ℕ) (si : ServiceInfo) (s : Sound n si) where
  pub remove_replicas_on_ip-Sound : (ip : IpAddr) → Sound n (remove_replicas_on_ip ip si)
  remove_replicas_on_ip-Sound ip =
      ((operations-IsValid si si ip 0 none s.0).1, remove_replicas_on_ip-Below n ip si s.1)

  pub remove_replica-Sound :
      (ip : IpAddr) (docker : Option String) → Sound n (remove_replica ip docker si)
  remove_replica-Sound ip docker =
      ((operations-IsValid si si ip 0 docker s.0).2, remove_replica-Below n ip docker si s.1)

  pub update_from_file-Sound : (loaded : ServiceInfo) → Sound n (update_from_file loaded si)
  update_from_file-Sound loaded =
      ((operations-IsValid si loaded "" 0 none s.0).3, update_from_file-Below n loaded si s.1)

  pub add_replica-Sound :
      (ip : IpAddr) (port : ℕ) (docker : Option String) → Sound n (add_replica ip port docker si)
  add_replica-Sound ip port docker =
      ((operations-IsValid si si ip port docker s.0).0, add_replica-Below n ip port docker si s.1)

-- The identifiers of the entries that a teardown collects.
abbrev pub OwnedBelow : ℕ → OwnedClient → Type 0
OwnedBelow n t = t.info.net_id < n

owned_on-Below :
    (n : ℕ) (r : Replica) (es : List (Client × ClientInfo))
    → All (λ (e : Client × ClientInfo). e.1.net_id < n) es
    → All (OwnedBelow n) (
        map
          (λ (e : Client × ClientInfo). record {
            client = e.0;
            info = e.1;
            replica_ip = r.ip;
            replica_docker = r.docker_container;
          })
          es)
owned_on-Below n r [] a = tt
owned_on-Below n r (e ∷ es) a = (a.0, owned_on-Below n r es a.1)

pub owned-Below :
    (n : ℕ) (rs : List Replica) → All (Below n) rs → All (OwnedBelow n) (flat_map owned_on rs)
owned-Below n [] a = tt
owned-Below n (r ∷ rs) a =
    All-append (OwnedBelow n) (owned_on r) (flat_map owned_on rs)
      (owned_on-Below n r r.clients.clients a.0) (owned-Below n rs a.1)
