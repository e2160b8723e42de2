-- ===== src/Changes/After/Cleared.antt =====
-- A client whose chain is torn down (src/services/changes.rs).
use nullnet_grpc.Base.{
  ℕ, ◌≡◌, ◌≤◌, ◌+◌, sym, subst, String, Bool, true, false, Option, List, [], ◌∷◌, inl, inr,
  Option-cases, Bool-cases, string_eq, ◌==◌, IpAddr, arith, All, retain, flat_map, map, ◌++◌,
  if◌then◌else◌,
}
use nullnet_grpc.Base.HashMap.{HashMap, get, contains_key, get-remove, get-modify}
use nullnet_grpc.Proto.{Net}
use nullnet_grpc.Clients.{Client, ClientInfo, client_eq, remove_active_chains}
use nullnet_grpc.ServiceInfo.{
  Replica, RegisteredServiceInfo, OwnedClient, owned_on, all_clients_owned, has_client,
}
use nullnet_grpc.Changes.{
  World, ProxyFilter, matches, matching, get_registered, on_services, update_registered,
  remove_clients, for_each, teardown_dep_chain, teardown_networks, teardown_chain,
}
use nullnet_grpc.Changes.Kept.{Result, for_each-Result, Any, All-Any, dep_chain-kept, networks-kept}
use nullnet_grpc.Changes.Kept.One.{Closed, OnReplicas, not_registered-OnReplicas, replicas-Kept}
use nullnet_grpc.Changes.Kept.Counted.{
  replicas_with, occurrences, remove_clients-replicas_with, AtMost, AtMost-Kept,
}
use nullnet_grpc.Changes.Entry.{registered_of, put_registered-same}
use nullnet_grpc.Changes.After.{Result-then}

module _ (c : Client) where
  -- The replica does not have the client.
  abbrev pub Lacks : Replica → Type 0
  Lacks r = has_client c r ≡ false

  pub Lacks-Closed : Closed Lacks
  unfolding contains_key
  Lacks-Closed = record {
    dropped = λ k r h. ground (arith, h, get-remove k c r.clients.clients);
    counted = λ k r h.
        rw (get-modify k c (remove_active_chains 1) r.clients.clients)
          (elim (Option-cases (get c r.clients.clients)) [
            | inl absent ↦ rw absent (ground arith)
            | inr (ci, there) ↦ absurd (found_not (rw there at h))
          ]);
  }
    where
      found_not : true ≡ false → ⊥
      found_not e = cc

  none_with-Lacks : (rs : List Replica) → replicas_with c rs ≤ 0 → All Lacks rs
  none_with-Lacks [] h = tt
  none_with-Lacks (r ∷ rs) h = (ground (arith, h), none_with-Lacks rs (ground (arith, h)))

  occurrences-append :
      (ts us : List OwnedClient) → occurrences c (ts ++ us) ≡ occurrences c ts + occurrences c us
  occurrences-append [] us = omega arith
  occurrences-append (t ∷ ts) us = let rest = occurrences-append ts us in omega (arith, rest)

  module _ (filter : ProxyFilter)
      (passes : (ip : IpAddr) (docker : Option String) → matches filter c ip docker ≡ true) where
    abbrev picks : OwnedClient → Bool
    picks t = matches filter t.client t.replica_ip t.replica_docker

    -- The filter picks this client.
    picked : (t : OwnedClient) → (t.client == c) ≡ true → picks t ≡ true
    picked t h =
        subst (λ x. matches filter x t.replica_ip t.replica_docker ≡ true)
          (sym ((client_eq.beq_iff t.client c).0 h)) (passes t.replica_ip t.replica_docker)

    retain-occurrences :
        (ts : List OwnedClient) → occurrences c ts ≤ occurrences c (retain picks ts)
    retain-occurrences [] = omega arith
    retain-occurrences (t ∷ ts) =
        let rest = retain-occurrences ts in
        elim (Bool-cases (t.client == c)) [
          | inl this ↦ rw (picked t this, retain) (omega (arith, rest))
          | inr other ↦ rw other (omega (arith, rest, retain_more (picks t)))
        ]
      where
        retain_more :
            (b : Bool)
            → occurrences c (retain picks ts)
              ≤ occurrences c (if b then t ∷ retain picks ts else retain picks ts)
        retain_more true = omega arith
        retain_more false = omega arith

    -- A replica that has the client owns an entry of it.
    entries-occurrences :
        (r : Replica) (m : HashMap Client ClientInfo)
        → (if contains_key c m then 1 else 0)
          ≤ occurrences c (
              map
                (λ (e : Client × ClientInfo). record {
                  client = e.0;
                  info = e.1;
                  replica_ip = r.ip;
                  replica_docker = r.docker_container;
                })
                m)
    unfolding contains_key get
    entries-occurrences r [] = omega arith
    entries-occurrences r ((k, ci) ∷ m) =
        let rest = entries-occurrences r m in
        elim (Bool-cases (k == c)) [
          | inl this ↦ rw this (omega arith)
          | inr other ↦ rw other (omega (arith, rest))
        ]

    owned-occurrences :
        (rs : List Replica) → replicas_with c rs ≤ occurrences c (flat_map owned_on rs)
    owned-occurrences [] = omega arith
    owned-occurrences (r ∷ rs) =
        let here = entries-occurrences r r.clients.clients in
        let both = occurrences-append (owned_on r) (flat_map owned_on rs) in
        let rest = owned-occurrences rs in omega (arith, here, both, rest)

    matching-occurrences :
        (reg : RegisteredServiceInfo)
        → replicas_with c reg.replicas ≤ occurrences c (matching filter reg)
    unfolding all_clients_owned
    matching-occurrences reg =
        let owned = owned-occurrences reg.replicas in
        let kept = retain-occurrences (all_clients_owned reg) in omega (arith, owned, kept)

    module _ (net : Net) (fuel : ℕ) (name : String) where
      abbrev AllLack : World → Type 0
      AllLack w = OnReplicas Lacks (get name w.services)

      forgotten-Lacks :
          (ts : List OwnedClient) (w : World)
          → AtMost c (occurrences c ts) (get name w.services)
          → AllLack (on_services (update_registered name (remove_clients ts)) w)
      forgotten-Lacks ts w h = elim (Option-cases (get_registered name w.services)) [
        | inl absent ↦
            rw (absent, update_registered)
              (not_registered-OnReplicas Lacks (get name w.services) absent)
        | inr (reg, found) ↦
            let few = subst (AtMost c (occurrences c ts)) (registered_of _ reg found) h in
            let less = remove_clients-replicas_with c ts reg in
            rw (found, update_registered)
              (subst (OnReplicas Lacks)
                (sym (put_registered-same name reg (remove_clients ts reg) w.services found))
                (none_with-Lacks _ (omega (arith, few, less))))
      ]

      -- Afterwards no replica of the service has the client.
      pub teardown_chain-Lacks :
          (w : World) → Result AllLack (teardown_chain net fuel name filter w)
      unfolding teardown_chain
      teardown_chain-Lacks w = elim (Option-cases (get_registered name w.services)) [
        | inl absent ↦
            rw (absent, teardown_chain)
              (not_registered-OnReplicas Lacks (get name w.services) absent)
        | inr (reg, found) ↦
            let ts = matching filter reg in
            let counted = AtMost-Kept c net (occurrences c ts) name in
            let start : AtMost c (occurrences c ts) (get name w.services) =
              subst (AtMost c (occurrences c ts)) (sym (registered_of _ reg found))
                (matching-occurrences reg) in
            rw (found, teardown_chain)
              (Result-then (λ v. AtMost c (occurrences c ts) (get name v.services)) AllLack
                (for_each
                  (λ (t : OwnedClient).
                    teardown_dep_chain net fuel (name, t.replica_ip, t.replica_docker))
                  ts w)
                (λ w'.
                  teardown_networks net name ts []
                    (on_services (update_registered name (remove_clients ts)) w'))
                (for_each-Result _ Any _
                  (λ t w' q.
                    dep_chain-kept net _ Any counted fuel (name, t.replica_ip, t.replica_docker) w')
                  ts w (All-Any ts) start)
                (λ w' few.
                  networks-kept net AllLack Any (replicas-Kept net Lacks Lacks-Closed name) name ts
                    [] _ (All-Any ts) (forgotten-Lacks ts w' few)))
      ]
