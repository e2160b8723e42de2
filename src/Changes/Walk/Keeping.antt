-- ===== src/Changes/Walk/Keeping.antt =====
-- The ranks of the proxy dependencies under the steps of a teardown (src/services/changes.rs).
use nullnet_grpc.Base.{
  ℕ, String, ◌≡◌, refl, ◌∙◌, Bool, true, false, Option, List, [], ◌∷◌, inl, inr, Option-cases,
  if◌then◌else◌, string_eq, IpAddr,
}
use nullnet_grpc.Proto.{Net}
use nullnet_grpc.ServiceInfo.{
  RegisteredServiceInfo, ServiceMap, OwnedClient, decrement_chain, remove_client,
}
use nullnet_grpc.Changes.Walk.{Ranked}
use nullnet_grpc.Changes.Walk.Ranks.{deps_of-put_registered}
use nullnet_grpc.Changes.{
  World, Hop, DepEdge, get_registered, update_registered, decrement_edge, decrement_edges,
  teardown_backend_chain, teardown_backend_chains, teardown_all_backend_chains_for, remove_clients,
  teardown_networks, replica_ids, teardown_network, collect_backend_chain_edges,
}

module _ (net : Net) (rank : String → ℕ) where
  pub update_registered-Ranked :
      (name : String) (f : RegisteredServiceInfo → RegisteredServiceInfo) (s : ServiceMap)
      → ((reg : RegisteredServiceInfo) → (f reg).proxy_deps ≡ reg.proxy_deps)
      → Ranked rank s
      → Ranked rank (update_registered name f s)
  update_registered-Ranked name f s same r = elim (Option-cases (get_registered name s)) [
    | inl absent ↦ rw (absent, update_registered) r
    | inr (reg, found) ↦
        rw (found, update_registered)
          λ j. rw (deps_of-put_registered name j reg (f reg) s found (same reg)) (r j)
  ]

  decrement_edge-Ranked :
      (e : DepEdge) (w : World)
      → Ranked rank w.services
      → Ranked rank (decrement_edge net e w).services
  unfolding decrement_edge decrement_chain
  decrement_edge-Ranked (client, dep) w r = elim (Option-cases (get_registered dep w.services)) [
    | inl absent ↦ rw (absent, decrement_edge) r
    | inr (reg, found) ↦
        rw (found, decrement_edge)
          λ name.
            rw
              (deps_of-put_registered dep name reg (decrement_chain net client reg w.orchestrator).0
                w.services found refl)
              (r name)
  ]

  pub decrement_edges-Ranked :
      (es : List DepEdge) (w : World)
      → Ranked rank w.services
      → Ranked rank (decrement_edges net es w).services
  unfolding decrement_edges
  decrement_edges-Ranked [] w r = r
  decrement_edges-Ranked (e ∷ es) w r =
      decrement_edges-Ranked es (decrement_edge net e w) (decrement_edge-Ranked e w r)

  pub backend_chain-Ranked :
      (here : Hop) (through : Option String) (w : World)
      → Ranked rank w.services
      → Ranked rank (teardown_backend_chain net here through w).services
  unfolding teardown_backend_chain
  backend_chain-Ranked here through w r =
      decrement_edges-Ranked (collect_backend_chain_edges here through w.services) w r

  pub backend_chains-Ranked :
      (name : String) (ids : List (IpAddr × Option String)) (through : Option String) (w : World)
      → Ranked rank w.services
      → Ranked rank (teardown_backend_chains net name ids through w).services
  unfolding teardown_backend_chains
  backend_chains-Ranked name [] through w r = r
  backend_chains-Ranked name ((ip, docker) ∷ ids) through w r =
      backend_chains-Ranked name ids through _ (backend_chain-Ranked (name, ip, docker) through w r)

  pub all_backend_chains-Ranked :
      (name : String) (through : Option String) (w : World)
      → Ranked rank w.services
      → Ranked rank (teardown_all_backend_chains_for net name through w).services
  unfolding teardown_all_backend_chains_for
  all_backend_chains-Ranked name through w r =
      backend_chains-Ranked name (replica_ids (get_registered name w.services)) through w r

  pub remove_clients-deps :
      (ts : List OwnedClient) (reg : RegisteredServiceInfo)
      → (remove_clients ts reg).proxy_deps ≡ reg.proxy_deps
  unfolding remove_client
  remove_clients-deps [] reg = refl
  remove_clients-deps (t ∷ ts) reg = remove_clients-deps ts (remove_client t.client reg)

  skip_or_tear-services :
      (b : Bool) (t : OwnedClient) (w : World)
      → (if b then w else teardown_network net t w).services ≡ w.services
  skip_or_tear-services true t w = refl
  skip_or_tear-services false t w = refl

  pub networks-services :
      (name : String) (ts : List OwnedClient) (seen : List ℕ) (w : World)
      → (teardown_networks net name ts seen w).services ≡ w.services
  unfolding teardown_networks
  networks-services name [] seen w = refl
  networks-services name (t ∷ ts) seen w =
      networks-services name ts _ _ ∙ skip_or_tear-services _ t w
