-- ===== src/GrpcImpl/Proxy.antt =====
-- `handle_proxy_request` and what it calls. The decision reads a snapshot of the services; the world
-- that it then acts on may be a later one.
use nullnet_grpc.Base.{
  ℕ, ◌++◌, String, Option, none, some, List, [], ◌∷◌, string_eq, IpAddr, Ipv4Addr, ipv4_to_string,
}
use nullnet_grpc.Base.HashMap.{get}
use nullnet_grpc.Base.Results.{Result, ok, err, ok_or, ◌>>=◌}
use nullnet_grpc.Proto.{Net, Upstream}
use nullnet_grpc.Net.{IpNetworkCrate}
use nullnet_grpc.Clients.{Client, new_client, new_info}
use nullnet_grpc.Edge.{Edge, RegisteredEdge, new_registered, into_registered}
use nullnet_grpc.ServiceInfo.{
  unregistered, registered, ServiceMap, set_latest_now, add_client_to_replica, add_chain,
  pick_replica_least_clients, proxy_dependency_chain,
}
use nullnet_grpc.Changes.{
  World, get_registered, update_registered, collect_dep_chain_edges, DepEdge,
}
use nullnet_grpc.GrpcImpl.Decision.{
  SharedNetwork, ProxyAction, reject, keep_session, share, set_up, decide_proxy,
}
use nullnet_grpc.GrpcImpl.EdgeTask.{Readings}
use nullnet_grpc.GrpcImpl.ChainSetup.{net_chain_setup}

unfoldable pub add_chains : ℕ → List DepEdge → ServiceMap → ServiceMap
add_chains now [] services = services
add_chains now ((client, dep_name) ∷ es) services =
    add_chains now es (update_registered dep_name (add_chain now client) services)

-- The section under the write lock that shares a network; `none` if the fuel of the walk runs out.
unfoldable pub share_network :
    ℕ → ℕ → String → IpAddr → Client → SharedNetwork → World → Option World
unfolding add_chains
share_network fuel now service_name proxy_ip proxy_client n w = do
  let ci = new_info now proxy_ip n.client_net n.server_net n.net_id 0 none
  let services' =
      update_registered service_name
        (λ reg.
          add_chain now proxy_client
            (add_client_to_replica n.replica_ip n.replica_docker proxy_client ci reg))
        w.services
  edges ← collect_dep_chain_edges fuel (service_name, n.replica_ip, n.replica_docker) services'
  some (record w { services = add_chains now edges services' })

-- `Edge::into_registered` of every edge; an edge with an unregistered end fails the whole chain.
unfoldable pub register_edges : List Edge → Option (List RegisteredEdge)
register_edges [] = some []
register_edges (e ∷ es) = do r ← into_registered e; rs ← register_edges es; some (r ∷ rs)

unfoldable pub build_proxy_dep_chain :
    String → IpAddr → Option String → ServiceMap → Result (List RegisteredEdge)
unfolding register_edges
build_proxy_dep_chain service_name service_ip service_docker services =
    elim (get service_name services) [
      | none ↦ err "Service not found"
      | some (unregistered unreg) ↦ err "Service is not registered"
      | some (registered reg) ↦
          ok_or
            (register_edges
              (proxy_dependency_chain reg service_name service_ip service_docker services))
            "Dependency not registered"
    ]

-- The edge from the proxy to the service, which `setup_proxy_chain` adds at the end.
abbrev pub proxy_edge : String → IpAddr → String → IpAddr → Option String → RegisteredEdge
proxy_edge service_name proxy_ip client_ip service_ip service_docker =
    new_registered proxy_ip (new_client client_ip (some proxy_ip)) none service_ip
      (new_client service_name none) service_docker

abbrev pub valid_upstream : World × Result (Option Ipv4Addr) → World × Result Ipv4Addr
valid_upstream (w, err e) = (w, err e)
valid_upstream (w, ok upstream) =
    (w, ok_or upstream "No valid upstream IP found after NET chain setup")

unfoldable pub setup_proxy_chain :
    IpNetworkCrate
    → Net
    → List (ℕ × Readings)
    → String
    → IpAddr
    → String
    → IpAddr
    → Option String
    → World
    → Option (World × Result Ipv4Addr)
unfolding build_proxy_dep_chain net_chain_setup
setup_proxy_chain crate net sched service_name proxy_ip client_ip service_ip service_docker w =
    elim (build_proxy_dep_chain service_name service_ip service_docker w.services) [
      | err e ↦ some (w, err e)
      | ok dep_chain ↦ do
        r ←
            net_chain_setup crate net sched
              (dep_chain
                ++ proxy_edge service_name proxy_ip client_ip service_ip service_docker ∷ [])
              w
        some (valid_upstream r)
    ]

abbrev pub upstream_at : ℕ → World × Result Ipv4Addr → World × Result Upstream
upstream_at port (w, err e) = (w, err e)
upstream_at port (w, ok ip) = (w, ok (record { ip = ipv4_to_string ip; port = port }))

unfoldable pub new_proxy_chain :
    IpNetworkCrate
    → Net
    → List (ℕ × Readings)
    → String
    → IpAddr
    → String
    → World
    → Option (World × Result Upstream)
unfolding setup_proxy_chain
new_proxy_chain crate net sched service_name proxy_ip client_ip w =
    elim (get_registered service_name w.services) [
      | none ↦ some (w, err "Service is not registered")
      | some reg ↦ elim (pick_replica_least_clients reg) [
        | none ↦ some (w, err "Service has no replicas")
        | some r ↦ do
          done ←
              setup_proxy_chain crate net sched service_name proxy_ip client_ip r.ip
                r.docker_container w
          some (upstream_at r.port done)
      ]
    ]

-- The rest of `handle_proxy_request`, on the world that it finds after the decision.
unfoldable pub perform_proxy :
    IpNetworkCrate
    → Net
    → ℕ
    → ℕ
    → List (ℕ × Readings)
    → String
    → IpAddr
    → String
    → ProxyAction
    → World
    → Option (World × Result Upstream)
unfolding share_network new_proxy_chain
perform_proxy crate net fuel now sched service_name proxy_ip client_ip (reject e) w =
    some (w, err e)
perform_proxy crate net fuel now sched service_name proxy_ip client_ip (keep_session upstream) w =
    some (
      record w {
        services =
            update_registered service_name
              (set_latest_now now (new_client client_ip (some proxy_ip))) w.services;
      },
      ok upstream,
    )
perform_proxy crate net fuel now sched service_name proxy_ip client_ip (share n) w = do
  w' ← share_network fuel now service_name proxy_ip (new_client client_ip (some proxy_ip)) n w
  some (w', ok n.upstream)
perform_proxy crate net fuel now sched service_name proxy_ip client_ip set_up w =
    new_proxy_chain crate net sched service_name proxy_ip client_ip w

-- A request that no other task interrupts between the decision and the act.
unfoldable pub handle_proxy_request :
    IpNetworkCrate
    → Net
    → ℕ
    → ℕ
    → List (ℕ × Readings)
    → String
    → IpAddr
    → String
    → World
    → Option (World × Result Upstream)
unfolding decide_proxy perform_proxy
handle_proxy_request crate net fuel now sched service_name proxy_ip client_ip w =
    perform_proxy crate net fuel now sched service_name proxy_ip client_ip
      (decide_proxy service_name proxy_ip client_ip w.services) w
