-- ===== src/ServiceInfo/Invariant.antt =====
-- The well-formedness of a service's replicas (src/services/service_info.rs).
use nullnet_grpc.Base.{
  ℕ, ◌≡◌, refl, ◌∙◌, ◌++◌, String, Bool, false, ◌||◌, Option, List, [], ◌∷◌, string_eq, option_eq,
  option_beq_iff, eq_iff, any, retain, is_empty, inl, inr, Bool-cases, IpAddr, arith,
}
use nullnet_grpc.ServiceInfo.{
  Replica, RegisteredServiceInfo, ServiceInfo, unregistered, registered, new_replica,
  matches_identity, add_replica, remove_replicas_on_ip, remove_replica, update_from_file,
  update_first, keep_replicas,
}

abbrev pub DistinctIds : List Replica → Type 0
DistinctIds [] = Unit {0}
DistinctIds (r ∷ rs) = (any (matches_identity r.ip r.docker_container) rs ≡ false) × DistinctIds rs

abbrev pub IsValid : ServiceInfo → Type 0
IsValid (unregistered unreg) = Unit {0}
IsValid (registered reg) = (is_empty reg.replicas ≡ false) × DistinctIds reg.replicas

any-retain {ℓ} :
    {A : Type ℓ} (p q : A → Bool) (xs : List A) → any p xs ≡ false → any p (retain q xs) ≡ false
any-retain p q [] h = refl
any-retain p q (x ∷ xs) h = ground (arith, any-retain p q xs)

retain-DistinctIds :
    (q : Replica → Bool) (rs : List Replica) → DistinctIds rs → DistinctIds (retain q rs)
retain-DistinctIds q [] d = tt
retain-DistinctIds q (r ∷ rs) d = ground (
  arith,
  retain-DistinctIds q rs d.1,
  any-retain (matches_identity r.ip r.docker_container) q rs d.0,
)

keep_replicas-IsValid :
    (reg : RegisteredServiceInfo) (kept : List Replica)
    → DistinctIds kept
    → IsValid (keep_replicas reg kept)
keep_replicas-IsValid reg [] d = tt
keep_replicas-IsValid reg (r ∷ rs) d = (refl, d)

-- A change of the port leaves every identity as it is.
any-set_port :
    (p : Replica → Bool) (ip : IpAddr) (docker : Option String) (port : ℕ) (rs : List Replica)
    → ((r : Replica) → p (record r { port = port }) ≡ p r)
    → any p (update_first (matches_identity ip docker) (λ r. record r { port = port }) rs)
      ≡ any p rs
any-set_port p ip docker port [] same = refl
any-set_port p ip docker port (r ∷ rs) same =
    ground (arith, same r, any-set_port p ip docker port rs same)

set_port-DistinctIds :
    (ip : IpAddr) (docker : Option String) (port : ℕ) (rs : List Replica)
    → DistinctIds rs
    → DistinctIds (update_first (matches_identity ip docker) (λ r. record r { port = port }) rs)
set_port-DistinctIds ip docker port [] d = tt
set_port-DistinctIds ip docker port (r ∷ rs) d = ground (
  arith,
  set_port-DistinctIds ip docker port rs d.1,
  any-set_port (matches_identity r.ip r.docker_container) ip docker port rs (λ r. refl),
)

any-append {ℓ} :
    {A : Type ℓ} (p : A → Bool) (xs : List A) (y : A) → any p (xs ++ y ∷ []) ≡ (any p xs || p y)
any-append p [] y = ground arith
any-append p (x ∷ xs) y = ground (arith, any-append p xs y)

matches_sym :
    (r : Replica) (ip : IpAddr) (docker : Option String)
    → matches_identity ip docker r ≡ false
    → matches_identity r.ip r.docker_container (new_replica ip 0 docker) ≡ false
matches_sym r ip docker h = ground (
  arith,
  eq_iff r.ip ip,
  eq_iff ip r.ip,
  option_beq_iff r.docker_container docker,
  option_beq_iff docker r.docker_container,
)

push-DistinctIds :
    (ip : IpAddr) (docker : Option String) (port : ℕ) (rs : List Replica)
    → any (matches_identity ip docker) rs ≡ false
    → DistinctIds rs
    → DistinctIds (rs ++ new_replica ip port docker ∷ [])
push-DistinctIds ip docker port [] h d = (refl, tt)
push-DistinctIds ip docker port (r ∷ rs) h d = ground (
  arith,
  push-DistinctIds ip docker port rs,
  any-append (matches_identity r.ip r.docker_container) rs (new_replica ip port docker),
  matches_sym r ip docker,
)

push-nonempty {ℓ} : {A : Type ℓ} (xs : List A) (y : A) → is_empty (xs ++ y ∷ []) ≡ false
push-nonempty [] y = refl
push-nonempty (x ∷ xs) y = refl

pub update_first-empty {ℓ} :
    {A : Type ℓ} (p : A → Bool) (f : A → A) (xs : List A)
    → is_empty (update_first p f xs) ≡ is_empty xs
update_first-empty p f [] = refl
update_first-empty p f (x ∷ xs) = ground arith

add_replica-IsValid :
    (ip : IpAddr) (port : ℕ) (docker : Option String) (si : ServiceInfo)
    → IsValid si
    → IsValid (add_replica ip port docker si)
unfolding add_replica
add_replica-IsValid ip port docker (unregistered unreg) v = (refl, (refl, tt))
add_replica-IsValid ip port docker (registered reg) v =
    elim (Bool-cases (any (matches_identity ip docker) reg.replicas)) [
      | inl old ↦ rw old (
        update_first-empty (matches_identity ip docker) _ reg.replicas ∙ v.0,
        set_port-DistinctIds ip docker port reg.replicas v.1,
      )
      | inr new ↦ rw new (
        push-nonempty reg.replicas (new_replica ip port docker),
        push-DistinctIds ip docker port reg.replicas new v.1,
      )
    ]

-- Adding a replica, removing one or those of a node, and an update from the configuration keep a
-- service valid: a registered service has a replica, and no two replicas have the same address and
-- container.
pub operations-IsValid :
    (si loaded : ServiceInfo) (ip : IpAddr) (port : ℕ) (docker : Option String)
    → IsValid si
    → IsValid (add_replica ip port docker si)
      × IsValid (remove_replicas_on_ip ip si)
      × IsValid (remove_replica ip docker si)
      × IsValid (update_from_file loaded si)
unfolding remove_replicas_on_ip remove_replica update_from_file
operations-IsValid (unregistered unreg) loaded ip port docker v =
    (add_replica-IsValid ip port docker (unregistered unreg) v, tt, tt, tt)
operations-IsValid (registered reg) loaded ip port docker v = (
  add_replica-IsValid ip port docker (registered reg) v,
  keep_replicas-IsValid reg _ (retain-DistinctIds _ reg.replicas v.1),
  keep_replicas-IsValid reg _ (retain-DistinctIds _ reg.replicas v.1),
  v,
)
