-- ===== src/GrpcImpl/Channel/Reconnect.antt =====
-- The channel of a node after one of its streams ends (src/orchestrator.rs).
use nullnet_grpc.Base.{
  ℕ, String, ◌≡◌, refl, ◌∙◌, ◌<◌, Option, none, some, List, string_eq, beq_refl, IpAddr, subst,
}
use nullnet_grpc.Base.HashMap.{get, get-remove, get-insert_same}
use nullnet_grpc.Proto.{Net}
use nullnet_grpc.Net.{IpNetworkCrate}
use nullnet_grpc.Orchestrator.{
  Orchestrator, Reply, acknowledged, add_client, remove_client, send_net_setup,
}
use nullnet_grpc.Changes.{World, detect_node_disconnect_changes}
use nullnet_grpc.Net.Sides.{IsLawful, server_address}
use nullnet_grpc.Orchestrator.Delivered.{IsUp, send_net_setup-delivered}
use nullnet_grpc.Changes.Walk.{Ranked}
use nullnet_grpc.Changes.Walk.Ending.{apply_changes_ends}
use nullnet_grpc.Changes.Kept.{Result}
use nullnet_grpc.Changes.Kept.Whole.{apply_changes-kept}
use nullnet_grpc.Changes.Kept.Channels.{absent-Kept}
use nullnet_grpc.GrpcImpl.ServicesList.{handle_node_disconnect}
use nullnet_grpc.GrpcImpl.Channel.{new_outbound, open_channel, acknowledge_all, serve_channel}

-- A node without a channel: no setup can reach it.
abbrev pub IsUnreachable : IpNetworkCrate → Net → IpAddr → Orchestrator → Type 0
IsUnreachable crate net ip o =
    (get ip o.clients ≡ none)
    × ((msg_id : String) (reply : Reply) (name : Option String) (id : ℕ) (remote : IpAddr)
          (dockers : Option String × Option String) (port : Option ℕ)
        → send_net_setup crate net msg_id reply ip name id remote dockers port o ≡ (o, none))

-- Every setup that the node acknowledges succeeds.
abbrev pub IsReachable : IpNetworkCrate → Net → IpAddr → Orchestrator → Type 0
IsReachable crate net ip o =
    (msg_id : String) (name : Option String) (id : ℕ) (remote : IpAddr)
    (client_docker server_docker : Option String) (port : Option ℕ)
    → (send_net_setup crate net msg_id acknowledged ip name id remote (client_docker, server_docker)
        port o).1
      ≡ some (server_address net id server_docker)

absent-IsUnreachable :
    (crate : IpNetworkCrate) (net : Net) (ip : IpAddr) (o : Orchestrator)
    → get ip o.clients ≡ none
    → IsUnreachable crate net ip o
unfolding send_net_setup
absent-IsUnreachable crate net ip o h =
    (h, λ msg_id reply name id remote dockers port. rw (h, send_net_setup) refl)

module _ (crate : IpNetworkCrate) (net : Net) (rank : String → ℕ) (fuel : ℕ)
    (enough : (name : String) → rank name < fuel) where
  -- Where the proxy dependencies are ranked and the fuel is enough, the end of a node's stream is
  -- handled, whatever the stream brought before, and afterwards the dependencies are still ranked, the
  -- node has no channel and no setup reaches it.
  pub serve_channel-IsUnreachable :
      (ip : IpAddr) (inbound : List String) (w : World)
      → Ranked rank w.services
      → (w' : World) × (serve_channel net fuel ip inbound w ≡ some w')
        × Ranked rank w'.services
        × IsUnreachable crate net ip w'.orchestrator
  unfolding serve_channel handle_node_disconnect
  serve_channel-IsUnreachable ip inbound w r =
      let o = acknowledge_all inbound w.orchestrator in
      let start : World = record { services = w.services; orchestrator = remove_client ip o } in
      let changes = detect_node_disconnect_changes w.services ip in
      let (w', e, r') = apply_changes_ends net rank fuel enough changes none start r tt in
      let gone : get ip (remove_client ip o).clients ≡ none =
        get-remove ip ip o.clients ∙ rw (beq_refl ip) refl in
      let kept =
        apply_changes-kept net (λ v. get ip v.orchestrator.clients ≡ none) _ (absent-Kept net ip)
          fuel changes none start (λ v h. h) gone in
      (
        w',
        e,
        r',
        absent-IsUnreachable crate net ip w'.orchestrator
            (subst (Result (λ v. get ip v.orchestrator.clients ≡ none)) e kept),
      )

  -- A node that opens a second stream while the first one is served is reachable through it: a
  -- setup that it acknowledges succeeds. Where the proxy dependencies are ranked and the fuel is
  -- enough, the first stream's end is handled, and afterwards the node has no channel, and no setup
  -- reaches it.
  pub reconnect-IsUnreachable :
      (lawful : IsLawful crate) (ip : IpAddr) (inbound : List String) (w : World)
      → Ranked rank w.services
      → IsReachable crate net ip
          (open_channel (some ip) (open_channel (some ip) w).0).0.orchestrator
        × ((w' : World) × (serve_channel net fuel ip inbound
                (open_channel (some ip) (open_channel (some ip) w).0).0
              ≡ some w')
            × IsUnreachable crate net ip w'.orchestrator)
  unfolding open_channel
  reconnect-IsUnreachable lawful ip inbound w r =
      let first = add_client ip new_outbound w.orchestrator in
      let up : IsUp ip (add_client ip new_outbound first) =
        (new_outbound, get-insert_same ip new_outbound first.clients, refl) in
      let (w', e, r', u) =
        serve_channel-IsUnreachable ip inbound
          (open_channel (some ip) (open_channel (some ip) w).0).0 r in
      (
        λ msg_id name id remote client_docker server_docker port.
            (send_net_setup-delivered crate lawful net msg_id ip name id remote client_docker
              server_docker port (add_client ip new_outbound first) up).0,
        (w', e, u),
      )
