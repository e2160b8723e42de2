-- ===== src/ServiceInfo/Upstreams.antt =====
-- Where `is_client_setup` finds a client after it was placed on a replica
-- (src/services/service_info.rs).
use nullnet_grpc.Base.{
  ℕ, ◌≡◌, refl, ap, ◌∙◌, String, Bool, true, false, Option, none, some, List, [], ◌∷◌, any, retain,
  find, find_map, is_some, string_eq, option_eq, some-injective, Ipv4Addr, ipv4_to_string, inl, inr,
  Bool-cases, Option-cases, IpAddr, arith,
}
use nullnet_grpc.Base.HashMap.{get, contains_key, get-modify_same, get-insert_same}
use nullnet_grpc.Proto.{Upstream}
use nullnet_grpc.Clients.{
  is_client_setup as set_up_in, Client, ClientInfo, client_eq, add_client, add_active_chain,
}
use nullnet_grpc.ServiceInfo.{
  Replica, RegisteredServiceInfo, matches_identity, has_client, update_first, map_clients,
  upstream_on, is_client_setup, is_client_on_replica, add_client_to_replica, add_chain,
}

module _ (client : Client) (f : ClientInfo → ClientInfo)
    (same : (ci : ClientInfo) → (f ci).server_net ≡ ci.server_net) where
  map_clients-upstream :
      (r : Replica) → upstream_on client (map_clients client f r) ≡ upstream_on client r
  map_clients-upstream r = elim (Option-cases (get client r.clients.clients)) [
    | inl absent ↦ rw (get-modify_same client f r.clients.clients, absent) refl
    | inr (ci, there) ↦ rw (get-modify_same client f r.clients.clients, there) (rw (same ci) refl)
  ]

  -- A write that keeps the server's address keeps what the client is told.
  pub update_first-upstream :
      (rs : List Replica)
      → find_map (upstream_on client) (update_first (has_client client) (map_clients client f) rs)
        ≡ find_map (upstream_on client) rs
  unfolding contains_key
  update_first-upstream [] = refl
  update_first-upstream (r ∷ rs) = ground (arith, map_clients-upstream r, update_first-upstream rs)

pub add_chain-setup :
    (now : ℕ) (client : Client) (reg : RegisteredServiceInfo)
    → is_client_setup client (add_chain now client reg) ≡ is_client_setup client reg
unfolding is_client_setup add_chain
add_chain-setup now client reg =
    update_first-upstream client (add_active_chain now) (λ ci. refl) reg.replicas

-- The upstream of a network's server end on a replica.
abbrev pub upstream_of : Ipv4Addr → Replica → Upstream
upstream_of server_net r = record { ip = ipv4_to_string server_net; port = r.port }

absent-get :
    (client : Client) (r : Replica)
    → has_client client r ≡ false
    → get client r.clients.clients ≡ none
unfolding contains_key
absent-get client r h = elim (Option-cases (get client r.clients.clients)) [
  | inl absent ↦ absent
  | inr (ci, there) ↦ absurd (true_false (rw there at h))
]
  where
    true_false : true ≡ false → ⊥
    true_false e = cc

absent-upstream :
    (client : Client) (r : Replica) → has_client client r ≡ false → upstream_on client r ≡ none
absent-upstream client r h = rw (absent-get client r h) refl

absent-set_up :
    (client : Client) (r : Replica)
    → has_client client r ≡ false
    → is_some (set_up_in client r.clients) ≡ false
absent-set_up client r h = rw (absent-get client r h) refl

module _ (client : Client) (ip : IpAddr) (docker : Option String) where
  abbrev pub placed : ClientInfo → Replica → Replica
  placed info r = record r { clients = add_client client info r.clients }

  placed-upstream :
      (info : ClientInfo) (r : Replica)
      → upstream_on client (placed info r) ≡ some (upstream_of info.server_net r)
  placed-upstream info r = rw (get-insert_same client info r.clients.clients) refl

  -- The first replica with the identity gives the upstream, once the client is put on it.
  put-upstream :
      (g : Replica → Replica) (a : Ipv4Addr) (rs : List Replica) (r : Replica)
      → ((x : Replica) → upstream_on client (g x) ≡ some (upstream_of a x))
      → any (has_client client) rs ≡ false
      → find (matches_identity ip docker) rs ≡ some r
      → find_map (upstream_on client) (update_first (matches_identity ip docker) g rs)
        ≡ some (upstream_of a r)
  put-upstream g a [] r gives h e = cc
  put-upstream g a (x ∷ rs) r gives h e = elim (Bool-cases (matches_identity ip docker x)) [
    | inl hit ↦
        let same : x ≡ r = some-injective _ _ (rw (hit, find) at e) in
        rw (hit, update_first) (rw (gives x, find_map) (ap (λ y. some (upstream_of a y)) same))
    | inr miss ↦
        let elsewhere : upstream_on client x ≡ none =
          absent-upstream client x (ground (arith, h)) in
        rw (miss, update_first)
          (rw (elsewhere, find_map)
            (put-upstream g a rs r gives (ground (arith, h)) (rw (miss, find) at e)))
  ]

  placed_twice :
      (before after : ClientInfo) (rs : List Replica)
      → update_first
          (matches_identity ip docker)
          (placed after)
          (update_first (matches_identity ip docker) (placed before) rs)
        ≡ update_first (matches_identity ip docker) (λ x. placed after (placed before x)) rs
  placed_twice before after [] = refl
  placed_twice before after (x ∷ rs) = elim (Bool-cases (matches_identity ip docker x)) [
    | inl hit ↦ rw (hit, update_first) (rw (hit, update_first) refl)
    | inr miss ↦
        rw (miss, update_first)
          (rw (miss, update_first) (ap (λ ys. x ∷ ys) (placed_twice before after rs)))
  ]

  module _ (reg : RegisteredServiceInfo) (r : Replica)
      (free : any (has_client client) reg.replicas ≡ false)
      (found : find (matches_identity ip docker) reg.replicas ≡ some r) where
    -- A client that no replica has is found where it is placed.
    pub add_client_to_replica-setup :
        (info : ClientInfo)
        → is_client_setup client (add_client_to_replica ip docker client info reg)
          ≡ some (upstream_of info.server_net r)
    unfolding is_client_setup add_client_to_replica
    add_client_to_replica-setup info =
        put-upstream (placed info) info.server_net reg.replicas r (placed-upstream info) free found

    -- A second entry on the same replica takes the place of the first.
    pub add_client_twice-setup :
        (before after : ClientInfo)
        → is_client_setup client (
            add_client_to_replica ip docker client after
              (add_client_to_replica ip docker client before reg))
          ≡ some (upstream_of after.server_net r)
    unfolding is_client_setup add_client_to_replica
    add_client_twice-setup before after =
        ap (find_map (upstream_on client)) (placed_twice before after reg.replicas)
        ∙ put-upstream (λ x. placed after (placed before x)) after.server_net reg.replicas r
            (λ x. placed-upstream after (placed before x)) free found

module _ (client : Client) where
  absent-upstreams :
      (rs : List Replica)
      → any (has_client client) rs ≡ false
      → find_map (upstream_on client) rs ≡ none
  absent-upstreams [] h = refl
  absent-upstreams (r ∷ rs) h =
      rw (absent-upstream client r (ground (arith, h)), find_map)
        (absent-upstreams rs (ground (arith, h)))

  -- A client that no replica has is not set up, on any replica.
  pub absent-setup :
      (reg : RegisteredServiceInfo)
      → any (has_client client) reg.replicas ≡ false
      → is_client_setup client reg ≡ none
  unfolding is_client_setup
  absent-setup reg h = absent-upstreams reg.replicas h

  absent_among :
      (p : Replica → Bool) (rs : List Replica)
      → any (has_client client) rs ≡ false
      → any (λ (r : Replica). is_some (set_up_in client r.clients)) (retain p rs) ≡ false
  absent_among p [] h = refl
  absent_among p (r ∷ rs) h = elim (Bool-cases (p r)) [
    | inl hit ↦
        let gone : is_some (set_up_in client r.clients) ≡ false =
          absent-set_up client r (ground (arith, h)) in
        rw (hit, retain) (rw (gone, any) (absent_among p rs (ground (arith, h))))
    | inr miss ↦ rw (miss, retain) (absent_among p rs (ground (arith, h)))
  ]

  pub absent-on_replica :
      (ip : IpAddr) (docker : Option String) (reg : RegisteredServiceInfo)
      → any (has_client client) reg.replicas ≡ false
      → is_client_on_replica client ip docker reg ≡ false
  unfolding is_client_on_replica
  absent-on_replica ip docker reg h = absent_among (matches_identity ip docker) reg.replicas h
