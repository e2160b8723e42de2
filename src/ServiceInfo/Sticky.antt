-- ===== src/ServiceInfo/Sticky.antt =====
-- Counting the chains of a client entry (src/services/service_info.rs).
use nullnet_grpc.Base.{
  any, ◌++◌, inl, ℕ, ◌+◌, ◌-◌, ◌<◌, ◌≡◌, refl, ap, nat_beq, ◌∙◌, String, Bool, true, false, Option,
  some, List, [], ◌∷◌, string_eq, option_eq, find, find_map, inl, inr, Option-cases, IpAddr, arith,
  beq_refl,
}
use nullnet_grpc.Base.Results.{◌>>=◌}
use nullnet_grpc.Base.HashMap.{
  get, modify, contains_key, get-modify, get-insert, modify-modify, modify-same,
}
use mathlib.Core.Option
use nullnet_grpc.Proto.{Net}
use nullnet_grpc.Orchestrator.{Orchestrator}
use nullnet_grpc.Clients.{
  Client, ClientInfo, add_client, client_eq, add_active_chain, remove_active_chains,
  set_latest_now as touch,
}
use nullnet_grpc.ServiceInfo.{
  Replica, RegisteredServiceInfo, matches_identity, has_client, update_first, map_clients,
  add_chain, set_latest_now, decrement_chain, decrement_first, decrement_entry,
  add_client_to_replica,
}

-- The entry that the operations on a client find: that of the first replica with the client.
abbrev pub first_entry : Client → List Replica → Option ClientInfo
first_entry client = find_map (λ (r : Replica). get client r.clients.clients)

module _ (net : Net) (now : ℕ) (client : Client) where
  -- On the replica with the entry, one chain more and one chain less cancel out.
  decrement_entry-add :
      (r : Replica) (ci : ClientInfo) (o : Orchestrator)
      → get client r.clients.clients ≡ some ci
      → 0 < ci.active_chains
      → decrement_entry net client
          (map_clients client (add_active_chain now) r)
          (add_active_chain now ci)
          o
        ≡ (map_clients client (touch now) r, o)
  decrement_entry-add r ci o found pos =
      rw (let more : nat_beq (ci.active_chains + 1 - 1) 0 ≡ false = ground arith in more) (
        ap (λ m. (record r { clients = record { clients = m } }, o))
          (modify-modify client (remove_active_chains 1) (add_active_chain now) r.clients.clients
            ∙ modify-same client _ (touch now) r.clients.clients ci found (ground arith)))

  decrement_first-add :
      (rs : List Replica) (ci : ClientInfo) (o : Orchestrator)
      → first_entry client rs ≡ some ci
      → 0 < ci.active_chains
      → decrement_first net client
          (update_first (has_client client) (map_clients client (add_active_chain now)) rs)
          o
        ≡ (update_first (has_client client) (map_clients client (touch now)) rs, o)
  unfolding decrement_first contains_key
  decrement_first-add [] ci o e pos = cc
  decrement_first-add (r ∷ rs) ci o e pos = elim (Option-cases (get client r.clients.clients)) [
    | inl absent ↦ ground (arith, absent, decrement_first-add rs ci o)
    | inr (entry, found) ↦
        let hit : has_client client r ≡ true = rw found in
        let got : get client (modify client (add_active_chain now) r.clients.clients)
            ≡ some (add_active_chain now entry) =
          get-modify client client (add_active_chain now) r.clients.clients
          ∙ rw (beq_refl client, found) in
        rw hit (
          rw (got, decrement_first)
            (ap (λ (p : Replica × Orchestrator). (p.0 ∷ rs, p.1))
              (decrement_entry-add r entry o found (ground arith))))
  ]

  -- For a client with at least one chain, a chain added and then taken away leaves the service as a
  -- touch of the entry does, and sends nothing.
  pub decrement-add_chain :
      (reg : RegisteredServiceInfo) (ci : ClientInfo) (o : Orchestrator)
      → first_entry client reg.replicas ≡ some ci
      → 0 < ci.active_chains
      → decrement_chain net client (add_chain now client reg) o ≡ (set_latest_now now client reg, o)
  unfolding decrement_chain add_chain set_latest_now
  decrement-add_chain reg ci o e pos = rw (decrement_first-add reg.replicas ci o e pos)

pub find-update_first {ℓ} :
    {A : Type ℓ} (p : A → Bool) (f : A → A) (xs : List A)
    → ((x : A) → p (f x) ≡ p x)
    → find p (update_first p f xs) ≡ Option.map f (find p xs)
find-update_first p f [] same = refl
find-update_first p f (x ∷ xs) same = ground (arith, same x, find-update_first p f xs same)

-- Elements that do not pass are passed over.
pub update_first-append {ℓ} :
    {A : Type ℓ} (p : A → Bool) (f : A → A) (xs ys : List A)
    → any p xs ≡ false
    → update_first p f (xs ++ ys) ≡ xs ++ update_first p f ys
update_first-append p f [] ys h = refl
update_first-append p f (x ∷ xs) ys h =
    let miss : p x ≡ false = ground (arith, h) in
    rw (miss, update_first) (ap (λ zs. x ∷ zs) (update_first-append p f xs ys (ground (arith, h))))

pub find-append {ℓ} :
    {A : Type ℓ} (p : A → Bool) (xs ys : List A) → any p xs ≡ false → find p (xs ++ ys) ≡ find p ys
find-append p [] ys h = refl
find-append p (x ∷ xs) ys h =
    let miss : p x ≡ false = ground (arith, h) in
    rw (miss, find) (find-append p xs ys (ground (arith, h)))

first_entry-append :
    (client : Client) (xs ys : List Replica)
    → any (has_client client) xs ≡ false
    → first_entry client (xs ++ ys) ≡ first_entry client ys
unfolding contains_key
first_entry-append client [] ys h = refl
first_entry-append client (x ∷ xs) ys h = elim (Option-cases (get client x.clients.clients)) [
  | inl absent ↦ rw (absent, find_map) (first_entry-append client xs ys (ground (arith, h)))
  | inr (ci, found) ↦ absurd (found_not (rw found at h))
]
  where
    found_not : true ≡ false → ⊥
    found_not e = cc

-- A link that is registered on a replica while an earlier replica is the first with an entry of the
-- same client: the chain is counted on the earlier replica's entry, and the new entry stays as it
-- was made.
pub add_chain_elsewhere :
    (now : ℕ) (client : Client) (info : ClientInfo) (reg : RegisteredServiceInfo)
    (before : List Replica) (r₁ r₂ : Replica) (rs : List Replica) (ci : ClientInfo) (ip : IpAddr)
    (docker : Option String)
    → reg.replicas ≡ before ++ r₁ ∷ rs
    → any (has_client client) before ≡ false
    → any (matches_identity ip docker) before ≡ false
    → get client r₁.clients.clients ≡ some ci
    → matches_identity ip docker r₁ ≡ false
    → find (matches_identity ip docker) rs ≡ some r₂
    → let reg' = add_chain now client (add_client_to_replica ip docker client info reg) in
      (first_entry client reg'.replicas ≡ some (add_active_chain now ci))
      × ((find (matches_identity ip docker) reg'.replicas >>= λ r. get client r.clients.clients)
          ≡ some info)
unfolding add_chain add_client_to_replica contains_key
add_chain_elsewhere now client info reg before r₁ r₂ rs ci ip docker e absent unmatched found other
      later =
    let p = matches_identity ip docker in
    let place = λ (r : Replica). record r { clients = add_client client info r.clients } in
    let count = map_clients client (add_active_chain now) in
    let hit : has_client client r₁ ≡ true = rw found in
    let got : get client (modify client (add_active_chain now) r₁.clients.clients)
        ≡ some (add_active_chain now ci) =
      get-modify client client (add_active_chain now) r₁.clients.clients
      ∙ rw (beq_refl client, found) in
    let placed = find-update_first p place rs (λ r. refl) in
    let other' : p (count r₁) ≡ false = other in
    let rest = update_first p place rs in
    let after : update_first (has_client client) count (update_first p place reg.replicas)
        ≡ before ++ count r₁ ∷ rest =
      rw (e, update_first-append p place before (r₁ ∷ rs) unmatched)
        (update_first-append (has_client client) count before _ absent
          ∙ ap (λ zs. before ++ zs) (rw (other, update_first) (rw (hit, update_first) refl))) in
    (
      ap (first_entry client) after
          ∙ (first_entry-append client before (count r₁ ∷ rest) absent ∙ rw (got, find_map) refl),
      ap (λ zs. find p zs >>= λ r. get client r.clients.clients) after
          ∙ (ap (λ o. o >>= λ (r : Replica). get client r.clients.clients)
                (find-append p before (count r₁ ∷ rest) unmatched)
              ∙ rw (other', placed, later)
                  (get-insert client client info r₂.clients.clients ∙ rw (beq_refl client))),
    )
