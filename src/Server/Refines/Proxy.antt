-- ===== src/Server/Refines/Proxy.antt =====
-- A proxy request as a run of the transition system (src/nullnet_grpc_impl.rs).
use nullnet_grpc.Base.{
  ℕ, ◌≡◌, refl, String, Option, none, some, List, [], ◌∷◌, inl, inr, Ipv4Addr, IpAddr, Option-cases,
}
use nullnet_grpc.Base.Results.{Result, Result-cases, ok, err}
use nullnet_grpc.Proto.{Net, ProxyRequest}
use nullnet_grpc.Net.{IpNetworkCrate}
use nullnet_grpc.Clients.{new_client}
use nullnet_grpc.ServiceInfo.{pick_replica_least_clients}
use nullnet_grpc.Changes.{World, get_registered}
use nullnet_grpc.GrpcImpl.{
  Readings, SharedNetwork, ProxyAction, reject, keep_session, share, set_up, decide_proxy,
  share_network, perform_proxy, handle_proxy_request, new_proxy_chain, setup_proxy_chain,
  build_proxy_dep_chain, valid_upstream, upstream_at, Request, answer, proxy_impl, proxy_method,
}
use nullnet_grpc.Server.{Server, here, next, keep, decide, act}
use nullnet_grpc.Server.Refines.{Leads, Refines, Refines-map}
use nullnet_grpc.Server.Refines.Chains.{net_chain_setup-Refines}

-- The server between two requests: no task runs.
abbrev pub idle : World → List SharedNetwork → Server
idle w offers = record { world = w; tasks = []; offers = offers }

module _ (crate : IpNetworkCrate) (net : Net) where
  pub answer-Refines :
      {A : Type 0} (s : Server) (m : Option (World × Result A))
      → Refines crate net s m
      → Refines crate net s (answer m)
  answer-Refines s none r = tt
  answer-Refines s (some (w, r')) r = r

  valid_upstream-same : (x : World × Result (Option Ipv4Addr)) → (valid_upstream x).0 ≡ x.0
  valid_upstream-same (w, err e) = refl
  valid_upstream-same (w, ok upstream) = refl

  upstream_at-same : (port : ℕ) (x : World × Result Ipv4Addr) → (upstream_at port x).0 ≡ x.0
  upstream_at-same port (w, err e) = refl
  upstream_at-same port (w, ok ip) = refl

  pub stays : (w : World) (offers : List SharedNetwork) → Leads crate net (idle w offers) w
  stays w offers = ([], offers, here)

  setup_proxy_chain-Refines :
      (sched : List (ℕ × Readings)) (name : String) (proxy_ip : IpAddr) (client_ip : String)
      (ip : IpAddr) (docker : Option String) (w : World) (offers : List SharedNetwork)
      → Refines crate net
          (idle w offers)
          (setup_proxy_chain crate net sched name proxy_ip client_ip ip docker w)
  unfolding setup_proxy_chain
  setup_proxy_chain-Refines sched name proxy_ip client_ip ip docker w offers =
      elim (Result-cases (build_proxy_dep_chain name ip docker w.services)) [
        | inl (chain, built) ↦
            rw (built, setup_proxy_chain)
              (Refines-map crate net (idle w offers) _ valid_upstream valid_upstream-same
                (net_chain_setup-Refines crate net sched _ w offers))
        | inr (e, failed) ↦ rw (failed, setup_proxy_chain) (stays w offers)
      ]

  new_proxy_chain-Refines :
      (sched : List (ℕ × Readings)) (name : String) (proxy_ip : IpAddr) (client_ip : String)
      (w : World) (offers : List SharedNetwork)
      → Refines crate net
          (idle w offers)
          (new_proxy_chain crate net sched name proxy_ip client_ip w)
  unfolding new_proxy_chain
  new_proxy_chain-Refines sched name proxy_ip client_ip w offers =
      elim (Option-cases (get_registered name w.services)) [
        | inl gone ↦ rw (gone, new_proxy_chain) (stays w offers)
        | inr (reg, there) ↦
            rw (there, new_proxy_chain)
              (elim (Option-cases (pick_replica_least_clients reg)) [
                | inl empty ↦ rw empty (stays w offers)
                | inr (r, picked) ↦ rw picked (
                    Refines-map crate net (idle w offers) _ (upstream_at r.port)
                      (upstream_at-same r.port)
                      (setup_proxy_chain-Refines sched name proxy_ip client_ip r.ip
                        r.docker_container w offers))
              ])
      ]

  perform_proxy-Refines :
      (fuel now : ℕ) (sched : List (ℕ × Readings)) (name : String) (proxy_ip : IpAddr)
      (client_ip : String) (action : ProxyAction) (w : World) (offers : List SharedNetwork)
      → decide_proxy name proxy_ip client_ip w.services ≡ action
      → Refines crate net
          (idle w offers)
          (perform_proxy crate net fuel now sched name proxy_ip client_ip action w)
  unfolding perform_proxy
  perform_proxy-Refines fuel now sched name proxy_ip client_ip (reject e) w offers d =
      stays w offers
  perform_proxy-Refines fuel now sched name proxy_ip client_ip (keep_session upstream) w offers d =
      ([], offers, next here (keep now name (new_client client_ip (some proxy_ip))))
  perform_proxy-Refines fuel now sched name proxy_ip client_ip (share n) w offers d =
      let client = new_client client_ip (some proxy_ip) in
      elim (Option-cases (share_network fuel now name proxy_ip client n w)) [
        | inl out ↦ rw out tt
        | inr (w', shared) ↦ rw shared (
          [],
          n ∷ offers,
          next (next here (decide name proxy_ip client_ip n d))
              (act fuel now 0 name proxy_ip client n w' refl shared),
        )
      ]
  perform_proxy-Refines fuel now sched name proxy_ip client_ip set_up w offers d =
      new_proxy_chain-Refines sched name proxy_ip client_ip w offers

  -- If a proxy request that runs alone ends, with an upstream or a status, then the server reaches
  -- the world that it ends with, from the world it began in and without tasks.
  pub proxy_method-Refines :
      (parse : String → Option IpAddr) (fuel now : ℕ) (sched : List (ℕ × Readings))
      (request : Request ProxyRequest) (w : World) (offers : List SharedNetwork)
      → Refines crate net (idle w offers) (proxy_method parse crate net fuel now sched request w)
  unfolding proxy_method proxy_impl handle_proxy_request
  proxy_method-Refines parse fuel now sched request w offers =
      answer-Refines (idle w offers) (proxy_impl parse crate net fuel now sched request w)
        (elim (Option-cases request.remote_addr) [
          | inl nowhere ↦ rw (nowhere, proxy_impl) (stays w offers)
          | inr (proxy_ip, from) ↦
              rw (from, proxy_impl)
                (elim (Option-cases (parse request.message.client_ip)) [
                  | inl bad ↦ rw bad (stays w offers)
                  | inr (client_ip, parsed) ↦
                      rw parsed (perform_proxy-Refines fuel now sched _ proxy_ip _ _ w offers refl)
                ])
        ])
