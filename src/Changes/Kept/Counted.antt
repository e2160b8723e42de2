-- ===== src/Changes/Kept/Counted.antt =====
-- The replicas that have a client, under `apply_changes` (src/services/changes.rs,
-- src/services/service_info.rs).
use nullnet_grpc.Base.{
  ℕ, ◌≡◌, ◌≤◌, ◌+◌, ◌-◌, String, Bool, not, Option, none, some, List, [], ◌∷◌, inl, inr,
  Option-cases, Bool-cases, if◌then◌else◌, string_eq, option_eq, nat_eq, ◌==◌, IpAddr, arith,
  retain, beq_refl,
}
use nullnet_grpc.Base.HashMap.{get, contains_key, get-remove, get-modify}
use nullnet_grpc.Base.{subst, sym}
use nullnet_grpc.Proto.{Net}
use nullnet_grpc.Orchestrator.{Orchestrator}
use nullnet_grpc.Clients.{Client, ClientInfo, client_eq, remove_active_chains}
use nullnet_grpc.ServiceInfo.{
  Replica, RegisteredServiceInfo, ServiceInfo, unregistered, registered, OwnedClient, keep_replicas,
  remove_replicas_on_ip, remove_replica, decrement_first, decrement_chain, decrement_entry,
  remove_client, has_client, drop_client, map_clients, update_first, matches_identity,
}
use nullnet_grpc.Changes.{remove_clients}
use nullnet_grpc.Changes.Kept.{Kept, Any}
use nullnet_grpc.Changes.Kept.One.{ClosedEntry, entry-Kept}

module _ (c : Client) where
  abbrev pub on_one : Replica → ℕ
  on_one r = if has_client c r then 1 else 0

  -- How many replicas have the client.
  abbrev pub replicas_with : List Replica → ℕ
  replicas_with [] = 0
  replicas_with (r ∷ rs) = on_one r + replicas_with rs

  -- How many of the clients are this one.
  abbrev pub occurrences : List OwnedClient → ℕ
  occurrences [] = 0
  occurrences (t ∷ ts) = (if t.client == c then 1 else 0) + occurrences ts

  drop_client-on_one : (k : Client) (r : Replica) → on_one (drop_client k r) ≤ on_one r
  unfolding contains_key
  drop_client-on_one k r = ground (arith, get-remove k c r.clients.clients)

  map_clients-on_one :
      (k : Client) (f : ClientInfo → ClientInfo) (r : Replica)
      → on_one (map_clients k f r) ≤ on_one r
  unfolding contains_key
  map_clients-on_one k f r = elim (Option-cases (get c r.clients.clients)) [
    | inl absent ↦ rw (get-modify k c f r.clients.clients, absent) (ground arith)
    | inr (ci, there) ↦ rw (there) (ground arith)
  ]

  update_first-replicas_with :
      (p : Replica → Bool) (f : Replica → Replica) (rs : List Replica)
      → ((r : Replica) → on_one (f r) ≤ on_one r)
      → replicas_with (update_first p f rs) ≤ replicas_with rs
  update_first-replicas_with p f [] h = omega arith
  update_first-replicas_with p f (r ∷ rs) h =
      ground (arith, h r, update_first-replicas_with p f rs h)

  -- The first replica that has the client loses it.
  drop_first-replicas_with :
      (rs : List Replica)
      → replicas_with (update_first (has_client c) (drop_client c) rs) ≤ replicas_with rs - 1
  unfolding contains_key
  drop_first-replicas_with [] = omega arith
  drop_first-replicas_with (r ∷ rs) =
      ground (arith, get-remove c c r.clients.clients, beq_refl c, drop_first-replicas_with rs)

  retain-replicas_with :
      (p : Replica → Bool) (rs : List Replica) → replicas_with (retain p rs) ≤ replicas_with rs
  retain-replicas_with p [] = omega arith
  retain-replicas_with p (r ∷ rs) = ground (arith, retain-replicas_with p rs)

  remove_client-replicas_with :
      (k : Client) (reg : RegisteredServiceInfo)
      → replicas_with (remove_client k reg).replicas
        ≤ replicas_with reg.replicas - (if k == c then 1 else 0)
  unfolding remove_client
  remove_client-replicas_with k reg = elim (Bool-cases (k == c)) [
    | inl same ↦
        let e : k ≡ c = (client_eq.beq_iff k c).0 same in
        rw same (
          subst
            (λ (x : Client).
              replicas_with (update_first (has_client x) (drop_client x) reg.replicas)
              ≤ replicas_with reg.replicas - 1)
            (sym e) (drop_first-replicas_with reg.replicas))
    | inr other ↦
        let less =
          update_first-replicas_with (has_client k) (drop_client k) reg.replicas
            (drop_client-on_one k) in
        rw other (omega (arith, less))
  ]

  -- Each of the clients that is this one takes it from a replica.
  pub remove_clients-replicas_with :
      (ts : List OwnedClient) (reg : RegisteredServiceInfo)
      → replicas_with (remove_clients ts reg).replicas ≤ replicas_with reg.replicas - occurrences ts
  remove_clients-replicas_with [] reg = omega arith
  remove_clients-replicas_with (t ∷ ts) reg =
      let first = remove_client-replicas_with t.client reg in
      let later = remove_clients-replicas_with ts (remove_client t.client reg) in
      omega (arith, first, later)

  -- At most that many replicas of an entry of the map of services have the client.
  abbrev pub AtMost : ℕ → Option ServiceInfo → Type 0
  AtMost n none = Unit {0}
  AtMost n (some (unregistered unreg)) = Unit {0}
  AtMost n (some (registered reg)) = replicas_with reg.replicas ≤ n

  keep-AtMost :
      (n : ℕ) (reg : RegisteredServiceInfo) (rs : List Replica)
      → replicas_with rs ≤ n
      → AtMost n (some (keep_replicas reg rs))
  keep-AtMost n reg [] h = tt
  keep-AtMost n reg (r ∷ rs) h = h

  node_lost-AtMost :
      (n : ℕ) (ip : IpAddr) (si : ServiceInfo)
      → AtMost n (some si)
      → AtMost n (some (remove_replicas_on_ip ip si))
  unfolding remove_replicas_on_ip
  node_lost-AtMost n ip (unregistered unreg) h = tt
  node_lost-AtMost n ip (registered reg) h =
      let kept = retain-replicas_with (λ (r : Replica). not (r.ip == ip)) reg.replicas in
      keep-AtMost n reg _ (omega (arith, kept, h))

  replica_lost-AtMost :
      (n : ℕ) (ip : IpAddr) (docker : Option String) (si : ServiceInfo)
      → AtMost n (some si)
      → AtMost n (some (remove_replica ip docker si))
  unfolding remove_replica
  replica_lost-AtMost n ip docker (unregistered unreg) h = tt
  replica_lost-AtMost n ip docker (registered reg) h =
      let kept =
        retain-replicas_with (λ (r : Replica). not (matches_identity ip docker r)) reg.replicas in
      keep-AtMost n reg _ (omega (arith, kept, h))

  module _ (net : Net) where
    decrement_first-replicas_with :
        (k : Client) (rs : List Replica) (o : Orchestrator)
        → replicas_with (decrement_first net k rs o).0 ≤ replicas_with rs
    unfolding decrement_first
    decrement_first-replicas_with k [] o = omega arith
    decrement_first-replicas_with k (r ∷ rs) o = elim (Option-cases (get k r.clients.clients)) [
      | inl absent ↦
          let rest = decrement_first-replicas_with k rs o in
          rw (absent, decrement_first) (omega (arith, rest))
      | inr (ci, found) ↦
          rw (found, decrement_first)
            (elim (Bool-cases ((remove_active_chains 1 ci).active_chains == 0)) [
              | inl last ↦
                  let less = drop_client-on_one k r in
                  rw (last, decrement_entry) (omega (arith, less))
              | inr more ↦
                  let same = map_clients-on_one k (remove_active_chains 1) r in
                  rw (more, decrement_entry) (omega (arith, same))
            ])
    ]

    AtMost-ClosedEntry : (n : ℕ) → ClosedEntry net (AtMost n)
    unfolding decrement_chain
    AtMost-ClosedEntry n = record {
      decremented = λ k reg o h.
          let less = decrement_first-replicas_with k reg.replicas o in omega (arith, less, h);
      forgotten =
          λ ts reg h. let less = remove_clients-replicas_with ts reg in omega (arith, less, h);
      failed = λ reg h. tt;
      dropped = tt;
      node_lost = node_lost-AtMost n;
      replica_lost = replica_lost-AtMost n;
    }

    pub AtMost-Kept : (n : ℕ) (name : String) → Kept net (λ w. AtMost n (get name w.services)) Any
    AtMost-Kept n = entry-Kept net (AtMost n) (AtMost-ClosedEntry n)
