-- ===== src/Changes/Kept.antt =====
-- What `apply_changes` does to a world, as the few actions that it is made of
-- (src/services/changes.rs): an interface for the predicates on worlds that each action keeps.
pub mod Whole
pub mod Sound
pub mod Channels
pub mod One
pub mod Counted
use nullnet_grpc.Base.{
  ℕ, String, ◌≡◌, Bool, true, false, Option, none, some, List, [], ◌∷◌, inl, inr, Option-cases, All,
  retain, filter_map, if◌then◌else◌, string_eq, IpAddr, arith,
}
use nullnet_grpc.Base.HashMap.{modify, remove}
use nullnet_grpc.Base.Results.{◌>>=◌}
use nullnet_grpc.Proto.{Net}
use nullnet_grpc.Clients.{Client}
use nullnet_grpc.ServiceInfo.{
  RegisteredServiceInfo, OwnedClient, all_clients_owned, remove_replicas_on_ip, remove_replica,
}
use nullnet_grpc.Changes.{
  World, DepEdge, Hop, ProxyFilter, all_clients, by_ip, by_client, on_replica, on_ip, ServiceChange,
  removed, proxy_deps_changed, triggers_changed, reachability_changed, replicas_removed,
  replica_removed, proxy_disconnected, proxy_client_timed_out, get_registered, update_registered,
  for_each, decrement_edge, decrement_edges, teardown_dep_chain, collect_dep_chain_edges,
  collect_backend_chain_edges, teardown_backend_chain, teardown_backend_chains,
  teardown_all_backend_chains_for, replica_ids, remove_clients, is_shared, teardown_network,
  teardown_networks, teardown_chain, matching, matches, fail_service, teardown_dependent,
  only_through_for, to_clean_up, teardown_invalidated_service, teardown_source, affected_clients,
  teardown_partial_replicas, on_services, services_via, ids_on_ip, all_on_ip, has_one_replica,
  apply_change,
}

-- Every action keeps `P`; `Good` holds of the client entries that a world with `P` has.
pub record Kept (net : Net) (P : World → Type 0) (Good : OwnedClient → Type 0) : Type 0 where
  pub owned :
      (name : String) (reg : RegisteredServiceInfo) (w : World)
      → get_registered name w.services ≡ some reg
      → P w
      → All Good (all_clients_owned reg)
  pub decremented : (e : DepEdge) (w : World) → P w → P (decrement_edge net e w)
  pub forgotten :
      (name : String) (ts : List OwnedClient) (w : World)
      → P w
      → P (on_services (update_registered name (remove_clients ts)) w)
  pub torn_down : (t : OwnedClient) (w : World) → Good t → P w → P (teardown_network net t w)
  pub failed : (name : String) (w : World) → P w → P (fail_service name w)
  pub dropped : (name : String) (w : World) → P w → P (on_services (remove name) w)
  pub node_lost :
      (name : String) (ip : IpAddr) (w : World)
      → P w
      → P (on_services (modify name (remove_replicas_on_ip ip)) w)
  pub replica_lost :
      (name : String) (ip : IpAddr) (docker : Option String) (w : World)
      → P w
      → P (on_services (modify name (remove_replica ip docker)) w)

-- The world that a run returns, if it returns one, satisfies `P`.
abbrev pub Result : (World → Type 0) → Option World → Type 0
Result P none = Unit {0}
Result P (some w) = P w

module _ (P : World → Type 0) where
  pub Result-bind :
      (m : Option World) (f : World → Option World)
      → Result P m
      → ((w : World) → P w → Result P (f w))
      → Result P (m >>= f)
  Result-bind none f r k = tt
  Result-bind (some w) f r k = k w r

  pub Result-map :
      (m : Option World) (f : World → World)
      → Result P m
      → ((w : World) → P w → P (f w))
      → Result P (m >>= λ w. some (f w))
  Result-map none f r k = tt
  Result-map (some w) f r k = k w r

  pub Result-if :
      (b : Bool) (m n : Option World) → Result P m → Result P n → Result P (if b then m else n)
  Result-if true m n r s = r
  Result-if false m n r s = s

  pub for_each-Result :
      {A : Type 0} (Q : A → Type 0) (body : A → World → Option World)
      → ((x : A) (w : World) → Q x → P w → Result P (body x w))
      → (xs : List A) (w : World) → All Q xs
      → P w
      → Result P (for_each body xs w)
  for_each-Result Q body h [] w q p = p
  for_each-Result Q body h (x ∷ xs) w q p =
      Result-bind (body x w) _ (h x w q.0 p) (λ w'. for_each-Result Q body h xs w' q.1)

pub All-retain {ℓ κ} :
    {A : Type ℓ} (Q : A → Type κ) (p : A → Bool) (xs : List A) → All Q xs → All Q (retain p xs)
All-retain Q p [] a = tt
All-retain Q p (x ∷ xs) a = ground (arith, All-retain Q p xs a.1)

-- The trivial condition on the elements of any list.
abbrev pub Any {ℓ} : {A : Type ℓ} → A → Type 0
Any x = Unit {0}

pub All-Any {ℓ} : {A : Type ℓ} (xs : List A) → All Any xs
All-Any [] = tt
All-Any (x ∷ xs) = (tt, All-Any xs)

module _ (net : Net) (P : World → Type 0) (Good : OwnedClient → Type 0)
    (kept : Kept net P Good) where
  pub decrement_edges-kept : (es : List DepEdge) (w : World) → P w → P (decrement_edges net es w)
  unfolding decrement_edges
  decrement_edges-kept [] w p = p
  decrement_edges-kept (e ∷ es) w p =
      decrement_edges-kept es (decrement_edge net e w) (kept.decremented e w p)

  pub backend_chain-kept :
      (here : Hop) (through : Option String) (w : World)
      → P w
      → P (teardown_backend_chain net here through w)
  unfolding teardown_backend_chain
  backend_chain-kept here through w p =
      decrement_edges-kept (collect_backend_chain_edges here through w.services) w p

  pub backend_chains-kept :
      (name : String) (ids : List (IpAddr × Option String)) (through : Option String) (w : World)
      → P w
      → P (teardown_backend_chains net name ids through w)
  unfolding teardown_backend_chains
  backend_chains-kept name [] through w p = p
  backend_chains-kept name ((ip, docker) ∷ ids) through w p =
      backend_chains-kept name ids through _ (backend_chain-kept (name, ip, docker) through w p)

  pub all_backend_chains-kept :
      (name : String) (through : Option String) (w : World)
      → P w
      → P (teardown_all_backend_chains_for net name through w)
  unfolding teardown_all_backend_chains_for
  all_backend_chains-kept name through w p =
      backend_chains-kept name (replica_ids (get_registered name w.services)) through w p

  pub dep_chain-kept :
      (fuel : ℕ) (here : Hop) (w : World) → P w → Result P (teardown_dep_chain net fuel here w)
  unfolding teardown_dep_chain
  dep_chain-kept fuel here w p =
      elim (Option-cases (collect_dep_chain_edges fuel here w.services)) [
        | inl out ↦ rw (out, teardown_dep_chain) tt
        | inr (edges, found) ↦ rw (found, teardown_dep_chain) (decrement_edges-kept edges w p)
      ]

  skip_or_tear-kept :
      (b : Bool) (t : OwnedClient) (w : World)
      → Good t
      → P w
      → P (if b then w else teardown_network net t w)
  skip_or_tear-kept true t w g p = p
  skip_or_tear-kept false t w g p = kept.torn_down t w g p

  pub networks-kept :
      (name : String) (ts : List OwnedClient) (seen : List ℕ) (w : World)
      → All Good ts
      → P w
      → P (teardown_networks net name ts seen w)
  unfolding teardown_networks
  networks-kept name [] seen w g p = p
  networks-kept name (t ∷ ts) seen w g p =
      networks-kept name ts _ _ g.1 (skip_or_tear-kept _ t w g.0 p)

  pub chain-kept :
      (fuel : ℕ) (name : String) (filter : ProxyFilter) (w : World)
      → P w
      → Result P (teardown_chain net fuel name filter w)
  unfolding teardown_chain
  chain-kept fuel name filter w p = elim (Option-cases (get_registered name w.services)) [
    | inl absent ↦ rw (absent, teardown_chain) p
    | inr (reg, found) ↦
        let good =
          All-retain Good
            (λ (t : OwnedClient). matches filter t.client t.replica_ip t.replica_docker)
            (all_clients_owned reg) (kept.owned name reg w found p) in
        rw (found, teardown_chain)
          (Result-map P
            (for_each
              (λ (t : OwnedClient).
                teardown_dep_chain net fuel (name, t.replica_ip, t.replica_docker))
              (matching filter reg) w)
            (λ w'.
              teardown_networks net name (matching filter reg) []
                (on_services (update_registered name (remove_clients (matching filter reg))) w'))
            (for_each-Result P Any _
              (λ t w' q. dep_chain-kept fuel (name, t.replica_ip, t.replica_docker) w')
              (matching filter reg) w (All-Any (matching filter reg)) p)
            (λ w' p'.
              networks-kept name (matching filter reg) [] _ good
                (kept.forgotten name (matching filter reg) w' p')))
  ]
