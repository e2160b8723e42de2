-- ===== src/ServiceInfo/Membership.antt =====
-- A replica that joins a service and leaves it again (src/services/service_info.rs).
use nullnet_grpc.Base.{
  ℕ, ◌≡◌, refl, ◌++◌, String, true, false, not, Option, List, [], ◌∷◌, string_eq, option_eq,
  option_beq_iff, eq_iff, any, retain, is_empty, IpAddr, arith,
}
use nullnet_grpc.ServiceInfo.{
  Replica, RegisteredServiceInfo, ServiceInfo, unregistered, registered, new_replica, replicas,
  matches_identity, add_replica, remove_replica, keep_replicas,
}
use nullnet_grpc.ServiceInfo.Invariant.{IsValid}

matches_self :
    (ip : IpAddr) (port : ℕ) (docker : Option String)
    → matches_identity ip docker (new_replica ip port docker) ≡ true
matches_self ip port docker = ground (arith, eq_iff ip ip, option_beq_iff docker docker)

retain_others :
    (ip : IpAddr) (docker : Option String) (new : Replica) (rs : List Replica)
    → matches_identity ip docker new ≡ true
    → any (matches_identity ip docker) rs ≡ false
    → retain (λ (r : Replica). not (matches_identity ip docker r)) (rs ++ new ∷ []) ≡ rs
retain_others ip docker new [] hit h = rw hit refl
retain_others ip docker new (r ∷ rs) hit h = ground (arith, retain_others ip docker new rs)

keep_all :
    (reg : RegisteredServiceInfo) (rs : List Replica)
    → is_empty rs ≡ false
    → keep_replicas reg rs ≡ registered (record reg { replicas = rs })
keep_all reg [] e = cc
keep_all reg (r ∷ rs) e = refl

-- If a valid service has no replica with the identity, adding one and removing it gives the service
-- back: a service without replicas is unregistered again, with its configuration kept.
pub remove_replica-add_replica :
    (ip : IpAddr) (port : ℕ) (docker : Option String) (si : ServiceInfo)
    → IsValid si
    → any (matches_identity ip docker) (replicas si) ≡ false
    → remove_replica ip docker (add_replica ip port docker si) ≡ si
unfolding remove_replica add_replica
remove_replica-add_replica ip port docker (unregistered unreg) v fresh =
    rw (matches_self ip port docker) refl
remove_replica-add_replica ip port docker (registered reg) v fresh =
    let others =
      retain_others ip docker (new_replica ip port docker) reg.replicas
        (matches_self ip port docker) fresh in
    rw fresh (
      rw others (
        keep_all (record reg { replicas = reg.replicas ++ new_replica ip port docker ∷ [] })
          reg.replicas v.0))
