-- ===== src/ServiceInfo/Shared.antt =====
-- The network that a new client of a proxy can share (src/services/service_info.rs).
use nullnet_grpc.Base.{
  ℕ, ◌≡◌, ◌<◌, Bool, true, false, Option, none, some, some-injective, List, [], ◌∷◌, All,
  All-append, flat_map, filter_map, min_by_key, min_by_key_from, ltb, if◌then◌else◌, inl, inr,
  Bool-cases, Option-cases, IpAddr, Ipv4Addr, option_eq, string_eq, ipv4_eq, subst, String,
}
use nullnet_grpc.Proto.{Upstream}
use nullnet_grpc.Clients.{Client, ClientInfo}
use nullnet_grpc.ServiceInfo.{
  Replica, RegisteredServiceInfo, reusable, find_reusable_network_on_proxy,
}
use nullnet_grpc.ServiceInfo.Sound.{Below}

module _ {ℓ κ} {A : Type ℓ} where
  min_by_key_from-All :
      (P : A → Type κ) (key : A → ℕ) (best : A) (xs : List A)
      → P best
      → All P xs
      → P (min_by_key_from key best xs)
  min_by_key_from-All P key best [] p a = p
  min_by_key_from-All P key best (x ∷ xs) p a = elim (Bool-cases (ltb (key x) (key best))) [
    | inl less ↦ rw less (min_by_key_from-All P key x xs a.0 a.1)
    | inr not_less ↦ rw not_less (min_by_key_from-All P key best xs p a.1)
  ]

  min_by_key-All :
      (P : A → Type κ) (key : A → ℕ) (xs : List A) (m : A)
      → min_by_key key xs ≡ some m
      → All P xs
      → P m
  min_by_key-All P key [] m e a = cc
  min_by_key-All P key (x ∷ xs) m e a =
      subst P (some-injective _ _ e) (min_by_key_from-All P key x xs a.0 a.1)

All-filter_map {ℓ κ ι μ} :
    {A : Type ℓ} {B : Type κ} (P : A → Type ι) (Q : B → Type μ) (f : A → Option B) (xs : List A)
    → ((x : A) (y : B) → f x ≡ some y → P x → Q y)
    → All P xs
    → All Q (filter_map f xs)
All-filter_map P Q f [] h a = tt
All-filter_map P Q f (x ∷ xs) h a = elim (Option-cases (f x)) [
  | inl skipped ↦ rw (skipped, filter_map) (All-filter_map P Q f xs h a.1)
  | inr (y, found) ↦ rw (found, filter_map) (h x y found a.0, All-filter_map P Q f xs h a.1)
]

reusable-entry :
    (b : Bool) (x y : ClientInfo × Replica) → (if b then some x else none) ≡ some y → x ≡ y
reusable-entry true x y e = some-injective _ _ e
reusable-entry false x y e = cc

reusable_below :
    (n : ℕ) (proxy_ip : IpAddr) (r : Replica) (es : List (Client × ClientInfo))
    → All (λ (e : Client × ClientInfo). e.1.net_id < n) es
    → All (λ (e : ClientInfo × Replica). e.0.net_id < n) (filter_map (reusable proxy_ip r) es)
reusable_below n proxy_ip r es a =
    All-filter_map (λ (e : Client × ClientInfo). e.1.net_id < n)
      (λ (e : ClientInfo × Replica). e.0.net_id < n) (reusable proxy_ip r) es
      (λ x y found low.
        subst (λ (e : ClientInfo × Replica). e.0.net_id < n) (reusable-entry _ (x.1, r) y found)
          low)
      a

candidates-Below :
    (n : ℕ) (proxy_ip : IpAddr) (rs : List Replica)
    → All (Below n) rs
    → All
        (λ (e : ClientInfo × Replica). e.0.net_id < n)
        (flat_map (λ (r : Replica). filter_map (reusable proxy_ip r) r.clients.clients) rs)
candidates-Below n proxy_ip [] a = tt
candidates-Below n proxy_ip (r ∷ rs) a =
    All-append (λ (e : ClientInfo × Replica). e.0.net_id < n)
      (filter_map (reusable proxy_ip r) r.clients.clients) _
      (reusable_below n proxy_ip r r.clients.clients a.0) (candidates-Below n proxy_ip rs a.1)

-- The identifier of the offered network.
abbrev pub OfferedBelow :
    ℕ → Option (Upstream × Ipv4Addr × Ipv4Addr × ℕ × IpAddr × Option String) → Type 0
OfferedBelow n none = Unit {0}
OfferedBelow n (some (upstream, client_net, server_net, net_id, ip, docker)) = net_id < n

pub find_reusable-Below :
    (n : ℕ) (proxy_ip : IpAddr) (reg : RegisteredServiceInfo)
    → All (Below n) reg.replicas
    → OfferedBelow n (find_reusable_network_on_proxy proxy_ip reg)
unfolding find_reusable_network_on_proxy
find_reusable-Below n proxy_ip reg a =
    let found =
      min_by_key (λ (e : ClientInfo × Replica). e.0.active_chains)
        (flat_map (λ (r : Replica). filter_map (reusable proxy_ip r) r.clients.clients)
          reg.replicas) in
    elim (Option-cases found) [
      | inl none_found ↦ rw none_found tt
      | inr (best, some_found) ↦ rw some_found (
          min_by_key-All (λ (e : ClientInfo × Replica). e.0.net_id < n)
            (λ (e : ClientInfo × Replica). e.0.active_chains) _ best some_found
            (candidates-Below n proxy_ip reg.replicas a))
    ]
