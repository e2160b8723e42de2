-- ===== src/Timeout/Nearest.antt =====
-- How long the check for timeouts sleeps (src/timeout.rs).
use nullnet_grpc.Base.{
  ℕ, ◌-◌, ◌≤◌, Bool, Option, none, some, List, [], ◌∷◌, ◌++◌, All, All-le_trans, min, map, retain,
  flat_map, is_some, min_by_key_from, min_by_key-le, refl, arith,
}
use nullnet_grpc.Base.HashMap.{values}
use nullnet_grpc.Timeout.{active_timeout, cap_expiry, cap_service, nearest_from, nearest_timeout}
use nullnet_grpc.Clients.{Client, ClientInfo}
use nullnet_grpc.ServiceInfo.{
  Replica, ServiceInfo, unregistered, registered, ServiceMap, timeout, from_secs,
  nearest_proxy_expiry, minimum,
}

-- What is left of the client's time.
abbrev pub left_of : ℕ → ℕ → Client × ClientInfo → ℕ
left_of now t e = t - (now - e.1.latest)

-- `n` is at most the service's timeout and the time left of each of its proxy clients.
abbrev pub Covers : ℕ → ℕ → ServiceInfo → Option ℕ → Type 0
Covers now n si none = Unit {0}
Covers now n (unregistered unreg) (some t) = n ≤ from_secs t
Covers now n (registered reg) (some t) =
    (n ≤ from_secs t)
    × All
        (λ (r : Replica).
          All (λ (e : Client × ClientInfo). n ≤ left_of now (from_secs t) e)
            (retain (λ (e : Client × ClientInfo). is_some e.0.proxy) r.clients.clients))
        reg.replicas

cap_expiry-le : (n : ℕ) (xs : List ℕ) → All (λ y. cap_expiry n (minimum xs) ≤ y) xs
cap_expiry-le n [] = tt
cap_expiry-le n (x ∷ xs) =
    All-le_trans (λ y. y) _ (min_by_key_from (λ y. y) x xs) (x ∷ xs) (omega arith)
      (min_by_key-le (λ y. y) (x ∷ xs) _ refl)

cap_expiry_bound : (n : ℕ) (o : Option ℕ) → cap_expiry n o ≤ n
cap_expiry_bound n none = omega arith
cap_expiry_bound n (some e) = omega arith

All-unmap {ℓ} :
    {A : Type ℓ} (n : ℕ) (f : A → ℕ) (xs : List A)
    → All (λ y. n ≤ y) (map f xs)
    → All (λ x. n ≤ f x) xs
All-unmap n f [] a = tt
All-unmap n f (x ∷ xs) a = (a.0, All-unmap n f xs a.1)

All-split {ℓ κ} :
    {A : Type ℓ} (P : A → Type κ) (xs ys : List A) → All P (xs ++ ys) → All P xs × All P ys
All-split P [] ys a = (tt, a)
All-split P (x ∷ xs) ys a = let (l, r) = All-split P xs ys a.1 in ((a.0, l), r)

All-replicas :
    (n : ℕ) (f : Client × ClientInfo → ℕ) (p : Client × ClientInfo → Bool) (rs : List Replica)
    → All (λ y. n ≤ y) (flat_map (λ (r : Replica). map f (retain p r.clients.clients)) rs)
    → All (λ (r : Replica). All (λ e. n ≤ f e) (retain p r.clients.clients)) rs
All-replicas n f p [] a = tt
All-replicas n f p (r ∷ rs) a =
    let (here, later) = All-split (λ y. n ≤ y) (map f (retain p r.clients.clients)) _ a in
    (All-unmap n f _ here, All-replicas n f p rs later)

cap_service_bound : (now : ℕ) (si : ServiceInfo) (t : Option ℕ) (n : ℕ) → cap_service now si t n ≤ n
cap_service_bound now si none n = omega arith
cap_service_bound now (unregistered unreg) (some t) n = omega arith
cap_service_bound now (registered reg) (some t) n =
    omega
      (arith, cap_expiry_bound (min n (from_secs t)) (nearest_proxy_expiry now (from_secs t) reg))

cap_service-Covers :
    (now : ℕ) (si : ServiceInfo) (t : Option ℕ) (n : ℕ) → Covers now (cap_service now si t n) si t
unfolding nearest_proxy_expiry
cap_service-Covers now si none n = tt
cap_service-Covers now (unregistered unreg) (some t) n = omega arith
cap_service-Covers now (registered reg) (some t) n = (
  omega
      (arith, cap_expiry_bound (min n (from_secs t)) (nearest_proxy_expiry now (from_secs t) reg)),
  All-replicas _ (left_of now (from_secs t)) (λ e. is_some e.0.proxy) reg.replicas
      (cap_expiry-le (min n (from_secs t)) _),
)

All-All-le :
    (m n : ℕ) (f : Client × ClientInfo → ℕ) (p : Client × ClientInfo → Bool) (rs : List Replica)
    → m ≤ n
    → All (λ (r : Replica). All (λ e. n ≤ f e) (retain p r.clients.clients)) rs
    → All (λ (r : Replica). All (λ e. m ≤ f e) (retain p r.clients.clients)) rs
All-All-le m n f p [] h a = tt
All-All-le m n f p (r ∷ rs) h a =
    (All-le_trans f m n (retain p r.clients.clients) h a.0, All-All-le m n f p rs h a.1)

Covers-le :
    (now m n : ℕ) (si : ServiceInfo) (t : Option ℕ) → m ≤ n → Covers now n si t → Covers now m si t
Covers-le now m n si none h c = tt
Covers-le now m n (unregistered unreg) (some t) h c = omega arith
Covers-le now m n (registered reg) (some t) h c = (
  omega (arith, c.0),
  All-All-le m n (left_of now (from_secs t)) (λ e. is_some e.0.proxy) reg.replicas h c.1,
)

nearest_from_bound : (now : ℕ) (sis : List ServiceInfo) (n : ℕ) → nearest_from now sis n ≤ n
unfolding nearest_from
nearest_from_bound now [] n = omega arith
nearest_from_bound now (si ∷ sis) n = omega (
  arith,
  nearest_from_bound now sis (cap_service now si (active_timeout (timeout si)) n),
  cap_service_bound now si (active_timeout (timeout si)) n,
)

nearest_from-Covers :
    (now : ℕ) (sis : List ServiceInfo) (n : ℕ)
    → All (λ si. Covers now (nearest_from now sis n) si (active_timeout (timeout si))) sis
unfolding nearest_from
nearest_from-Covers now [] n = tt
nearest_from-Covers now (si ∷ sis) n =
    let capped = cap_service now si (active_timeout (timeout si)) n in
    (
      Covers-le now (nearest_from now sis capped) capped si (active_timeout (timeout si))
          (nearest_from_bound now sis capped)
          (cap_service-Covers now si (active_timeout (timeout si)) n),
      nearest_from-Covers now sis capped,
    )

-- The sleep is no longer than the default timeout, and for every service with a timeout that is not
-- 0 no longer than that timeout and than what is left of the time of any of its proxy clients.
pub nearest_timeout-Covers :
    (default_timeout now : ℕ) (services : ServiceMap)
    → (nearest_timeout default_timeout now services ≤ from_secs default_timeout)
      × All
          (λ si.
            Covers now
              (nearest_timeout default_timeout now services)
              si
              (active_timeout (timeout si)))
          (values services)
unfolding nearest_timeout
nearest_timeout-Covers default_timeout now services = (
  nearest_from_bound now (values services) (from_secs default_timeout),
  nearest_from-Covers now (values services) (from_secs default_timeout),
)
