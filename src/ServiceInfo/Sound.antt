-- ===== src/ServiceInfo/Sound.antt =====
-- The condition on a service that the server keeps: the well-formedness of its replicas, and a bound
-- on the network identifiers of its client entries (src/services/service_info.rs).
use nullnet_grpc.Base.{
  ℕ, ◌≡◌, ◌<◌, refl, ap, sym, ◌∙◌, String, Bool, Option, none, some, List, [], ◌∷◌, ◌==◌, string_eq,
  option_eq, nat_eq, any, All, inl, inr, Bool-cases, Option-cases, IpAddr, arith, subst,
}
use nullnet_grpc.Base.HashMap.{get, contains_key, All-insert, All-remove, All-modify}
use nullnet_grpc.Proto.{Net}
use nullnet_grpc.Orchestrator.{Orchestrator}
use nullnet_grpc.Clients.{
  Client, ClientInfo, client_eq, add_client, add_active_chain, remove_active_chains,
  set_latest_now as touch,
}
use nullnet_grpc.ServiceInfo.{
  Replica, RegisteredServiceInfo, ServiceInfo, registered, replicas, matches_identity, has_client,
  update_first, map_clients, drop_client, add_chain, set_latest_now, add_client_to_replica,
  remove_client, decrement_entry, decrement_first, decrement_chain,
}
use nullnet_grpc.ServiceInfo.Invariant.{IsValid, DistinctIds, update_first-empty}

-- The network identifiers of the entries of one replica are below `n`.
abbrev pub Below : ℕ → Replica → Type 0
Below n r = All (λ (e : Client × ClientInfo). e.1.net_id < n) r.clients.clients

abbrev pub Sound : ℕ → ServiceInfo → Type 0
Sound n si = IsValid si × All (Below n) (replicas si)

-- A write to a replica that leaves its identity as it is.
abbrev pub KeepsId : (Replica → Replica) → Type 0
KeepsId f = (r : Replica) → ((f r).ip ≡ r.ip) × ((f r).docker_container ≡ r.docker_container)

any-update_first :
    (ip : IpAddr) (docker : Option String) (p : Replica → Bool) (f : Replica → Replica)
    (rs : List Replica)
    → KeepsId f
    → any (matches_identity ip docker) (update_first p f rs) ≡ any (matches_identity ip docker) rs
any-update_first ip docker p f [] same = refl
any-update_first ip docker p f (r ∷ rs) same =
    let (ips, dockers) = same r in
    elim (Bool-cases (p r)) [
      | inl hit ↦ rw (hit, ips, dockers) refl
      | inr miss ↦ rw miss (rw (any-update_first ip docker p f rs same) refl)
    ]

update_first-DistinctIds :
    (p : Replica → Bool) (f : Replica → Replica) (rs : List Replica)
    → KeepsId f
    → DistinctIds rs
    → DistinctIds (update_first p f rs)
update_first-DistinctIds p f [] same d = tt
update_first-DistinctIds p f (r ∷ rs) same d =
    let (ips, dockers) = same r in
    elim (Bool-cases (p r)) [
      | inl hit ↦ rw hit (rw (ips, dockers) d.0, d.1)
      | inr miss ↦ rw miss (
        any-update_first r.ip r.docker_container p f rs same ∙ d.0,
        update_first-DistinctIds p f rs same d.1,
      )
    ]

All-update_first {ℓ κ} :
    {A : Type ℓ} (P : A → Type κ) (p : A → Bool) (f : A → A) (xs : List A)
    → ((x : A) → P x → P (f x))
    → All P xs
    → All P (update_first p f xs)
All-update_first P p f [] h a = tt
All-update_first P p f (x ∷ xs) h a = elim (Bool-cases (p x)) [
  | inl hit ↦ rw hit (h x a.0, a.1)
  | inr miss ↦ rw miss (a.0, All-update_first P p f xs h a.1)
]

-- A write to the first replica that passes a test.
pub update_first-Sound :
    (n : ℕ) (reg : RegisteredServiceInfo) (p : Replica → Bool) (f : Replica → Replica)
    → KeepsId f
    → ((r : Replica) → Below n r → Below n (f r))
    → Sound n (registered reg)
    → Sound n (registered (record reg { replicas = update_first p f reg.replicas }))
update_first-Sound n reg p f same below s = (
  (
    update_first-empty p f reg.replicas ∙ s.0.0,
    update_first-DistinctIds p f reg.replicas same s.0.1,
  ),
  All-update_first (Below n) p f reg.replicas below s.1,
)

map_clients-Below :
    (n : ℕ) (client : Client) (f : ClientInfo → ClientInfo) (r : Replica)
    → ((ci : ClientInfo) → (f ci).net_id ≡ ci.net_id)
    → Below n r
    → Below n (map_clients client f r)
map_clients-Below n client f r same b =
    All-modify (λ (ci : ClientInfo). ci.net_id < n) client f r.clients.clients
      (λ ci h. omega (arith, same ci, h)) b

drop_client-Below :
    (n : ℕ) (client : Client) (r : Replica) → Below n r → Below n (drop_client client r)
drop_client-Below n client r b =
    All-remove (λ (ci : ClientInfo). ci.net_id < n) client r.clients.clients b

module _ (n : ℕ) (client : Client) (reg : RegisteredServiceInfo)
    (s : Sound n (registered reg)) where
  pub add_chain-Sound : (now : ℕ) → Sound n (registered (add_chain now client reg))
  unfolding add_chain
  add_chain-Sound now =
      update_first-Sound n reg (has_client client) (map_clients client (add_active_chain now))
        (λ r. (refl, refl)) (λ r. map_clients-Below n client (add_active_chain now) r (λ ci. refl))
        s

  pub set_latest_now-Sound : (now : ℕ) → Sound n (registered (set_latest_now now client reg))
  unfolding set_latest_now
  set_latest_now-Sound now =
      update_first-Sound n reg (has_client client) (map_clients client (touch now))
        (λ r. (refl, refl)) (λ r. map_clients-Below n client (touch now) r (λ ci. refl)) s

  pub remove_client-Sound : Sound n (registered (remove_client client reg))
  unfolding remove_client
  remove_client-Sound =
      update_first-Sound n reg (has_client client) (drop_client client) (λ r. (refl, refl))
        (drop_client-Below n client) s

  pub add_client_to_replica-Sound :
      (ip : IpAddr) (docker : Option String) (ci : ClientInfo)
      → ci.net_id < n
      → Sound n (registered (add_client_to_replica ip docker client ci reg))
  unfolding add_client_to_replica
  add_client_to_replica-Sound ip docker ci low =
      update_first-Sound n reg (matches_identity ip docker)
        (λ r. record r { clients = add_client client ci r.clients }) (λ r. (refl, refl))
        (λ r b. All-insert (λ (c : ClientInfo). c.net_id < n) client ci r.clients.clients low b) s

-- What `decrement_chain` makes of a replica, the messages aside.
shrink : Net → Client → Orchestrator → Replica → Replica
shrink net client o r = elim (get client r.clients.clients) [
  | none ↦ r
  | some ci ↦ (decrement_entry net client r ci o).0
]

shrink-cases :
    (net : Net) (client : Client) (o : Orchestrator) (r : Replica) (P : Replica → Type 0)
    → P r
    → P (drop_client client r)
    → P (map_clients client (remove_active_chains 1) r)
    → P (shrink net client o r)
unfolding shrink
shrink-cases net client o r P a b c = elim (Option-cases (get client r.clients.clients)) [
  | inl absent ↦ rw (absent, shrink) a
  | inr (ci, found) ↦
      rw (found, shrink)
        (elim (Bool-cases ((remove_active_chains 1 ci).active_chains == 0)) [
          | inl last ↦ rw (last, decrement_entry) b
          | inr more ↦ rw (more, decrement_entry) c
        ])
]

decrement_first-replicas :
    (net : Net) (client : Client) (rs : List Replica) (o : Orchestrator)
    → (decrement_first net client rs o).0
      ≡ update_first (has_client client) (shrink net client o) rs
unfolding decrement_first contains_key shrink
decrement_first-replicas net client [] o = refl
decrement_first-replicas net client (r ∷ rs) o =
    elim (Option-cases (get client r.clients.clients)) [
      | inl absent ↦
          rw (absent, decrement_first, update_first)
            (ap (λ xs. r ∷ xs) (decrement_first-replicas net client rs o))
      | inr (ci, found) ↦ rw (found, decrement_first, update_first, shrink) refl
    ]

pub decrement_chain-Sound :
    (n : ℕ) (net : Net) (client : Client) (reg : RegisteredServiceInfo) (o : Orchestrator)
    → Sound n (registered reg)
    → Sound n (registered (decrement_chain net client reg o).0)
unfolding decrement_chain
decrement_chain-Sound n net client reg o s =
    subst (λ rs. Sound n (registered (record reg { replicas = rs })))
      (sym (decrement_first-replicas net client reg.replicas o))
      (update_first-Sound n reg (has_client client) (shrink net client o)
        (λ r.
          shrink-cases net client o r
            (λ x. (x.ip ≡ r.ip) × (x.docker_container ≡ r.docker_container)) (refl, refl)
            (refl, refl) (refl, refl))
        (λ r b.
          shrink-cases net client o r (Below n) b (drop_client-Below n client r b)
            (map_clients-Below n client (remove_active_chains 1) r (λ ci. refl) b))
        s)
