-- ===== src/ServiceInfo/Slots.antt =====
-- A slot that is reserved for a client and given back (src/services/service_info.rs).
use nullnet_grpc.Base.{
  ◌++◌, ◌≡◌, refl, ap, ◌∙◌, String, true, false, Option, none, some, List, [], ◌∷◌, string_eq,
  option_eq, option_beq_iff, eq_iff, any, find, IpAddr, arith, inl, inr, Bool-cases, beq_refl,
  PartialEq,
}
use nullnet_grpc.Base.Results.{◌>>=◌}
use nullnet_grpc.Base.HashMap.{HashMap, get, insert, remove, contains_key, get-insert, get-remove}
use nullnet_grpc.Clients.{Client, ClientInfo, client_eq, add_client}
use nullnet_grpc.ServiceInfo.{
  Replica, RegisteredServiceInfo, matches_identity, has_client, update_first, drop_client,
  add_client_to_replica, remove_client,
}
use nullnet_grpc.ServiceInfo.Sticky.{find-update_first, find-append, update_first-append}

module _ {ℓ κ} {K : Type ℓ} {V : Type κ} ⦃e : PartialEq K⦄ where
  remove-absent : (k : K) (m : HashMap K V) → get k m ≡ none → remove k m ≡ m
  unfolding get remove
  remove-absent k [] h = refl
  remove-absent k ((j, w) ∷ m) h = ground (arith, remove-absent k m)

  remove-insert : (k : K) (v : V) (m : HashMap K V) → get k m ≡ none → remove k (insert k v m) ≡ m
  unfolding get remove insert
  remove-insert k v [] h = rw (beq_refl k) refl
  remove-insert k v ((j, w) ∷ m) h = ground (arith, remove-insert k v m)

module _ (ip : IpAddr) (docker : Option String) (client : Client) (info : ClientInfo) where
  placed : Replica → Replica
  placed r = record r { clients = add_client client info r.clients }

  drop-placed :
      (r : Replica) → get client r.clients.clients ≡ none → drop_client client (placed r) ≡ r
  unfolding placed
  drop-placed r h =
      ap (λ m. record r { clients = record { clients = m } })
        (remove-insert client info r.clients.clients h)

  placed-has_client : (r : Replica) → has_client client (placed r) ≡ true
  unfolding placed contains_key
  placed-has_client r = rw (get-insert client client info r.clients.clients, beq_refl client) refl

  slot-roundtrip :
      (rs : List Replica)
      → any (has_client client) rs ≡ false
      → update_first
          (has_client client)
          (drop_client client)
          (update_first (matches_identity ip docker) placed rs)
        ≡ rs
  unfolding contains_key
  slot-roundtrip [] h = refl
  slot-roundtrip (r ∷ rs) h = elim (Bool-cases (matches_identity ip docker r)) [
    | inl hit ↦
        rw hit (rw (placed-has_client r) (ap (λ x. x ∷ rs) (drop-placed r (ground (arith, h)))))
    | inr miss ↦ rw miss (ground (arith, slot-roundtrip rs))
  ]

  -- If no replica of the service has the client, removing the client after it was given a slot
  -- leaves the service as it was.
  pub remove_client-add_client_to_replica :
      (reg : RegisteredServiceInfo)
      → any (has_client client) reg.replicas ≡ false
      → remove_client client (add_client_to_replica ip docker client info reg) ≡ reg
  unfolding remove_client add_client_to_replica placed
  remove_client-add_client_to_replica reg h =
      ap (λ rs. record reg { replicas = rs }) (slot-roundtrip reg.replicas h)

  -- If an earlier replica is the first with an entry of the client, and the first with its identity,
  -- removing the client after it was given a slot on a later replica removes the earlier entry, and
  -- the slot stays.
  pub remove_client_elsewhere :
      (reg : RegisteredServiceInfo) (before : List Replica) (r₁ r₂ : Replica) (rs : List Replica)
      (ci : ClientInfo)
      → reg.replicas ≡ before ++ r₁ ∷ rs
      → any (has_client client) before ≡ false
      → any (matches_identity ip docker) before ≡ false
      → any (matches_identity r₁.ip r₁.docker_container) before ≡ false
      → get client r₁.clients.clients ≡ some ci
      → matches_identity ip docker r₁ ≡ false
      → find (matches_identity ip docker) rs ≡ some r₂
      → let after =
          (remove_client client (add_client_to_replica ip docker client info reg)).replicas in
        ((find (matches_identity r₁.ip r₁.docker_container) after >>= λ r.
        get client r.clients.clients)
          ≡ none)
        × ((find (matches_identity ip docker) after >>= λ r. get client r.clients.clients)
            ≡ some info)
  unfolding remove_client add_client_to_replica contains_key
  remove_client_elsewhere reg before r₁ r₂ rs ci e absent unmatched alone found other later =
      let p = matches_identity ip docker in
      let q = matches_identity r₁.ip r₁.docker_container in
      let place = λ (r : Replica). record r { clients = add_client client info r.clients } in
      let drop = drop_client client in
      let hit : has_client client r₁ ≡ true = rw found in
      let self : q (drop r₁) ≡ true =
        ground
          (arith, eq_iff r₁.ip r₁.ip, option_beq_iff r₁.docker_container r₁.docker_container) in
      let other' : p (drop r₁) ≡ false = other in
      let moved = find-update_first p place rs (λ r. refl) in
      let rest = update_first p place rs in
      let after : update_first (has_client client) drop (update_first p place reg.replicas)
          ≡ before ++ drop r₁ ∷ rest =
        rw (e, update_first-append p place before (r₁ ∷ rs) unmatched)
          (update_first-append (has_client client) drop before _ absent
            ∙ ap (λ zs. before ++ zs) (rw (other, update_first) (rw (hit, update_first) refl))) in
      (
        ap (λ zs. find q zs >>= λ r. get client r.clients.clients) after
            ∙ (ap (λ o. o >>= λ (r : Replica). get client r.clients.clients)
                  (find-append q before (drop r₁ ∷ rest) alone)
                ∙ rw self (get-remove client client r₁.clients.clients ∙ rw (beq_refl client))),
        ap (λ zs. find p zs >>= λ r. get client r.clients.clients) after
            ∙ (ap (λ o. o >>= λ (r : Replica). get client r.clients.clients)
                  (find-append p before (drop r₁ ∷ rest) unmatched)
                ∙ rw (other', moved, later)
                    (get-insert client client info r₂.clients.clients ∙ rw (beq_refl client))),
      )
