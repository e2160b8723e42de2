-- ===== src/Orchestrator/Delivered.antt =====
-- A setup that its node receives and acknowledges (src/orchestrator.rs).

use nullnet_grpc.Base.{
  ℕ, ◌≡◌, refl, String, true, Option, some, string_eq, inl, inr, Bool-cases, IpAddr, some-injective,
  ap, ◌==◌,
}
use nullnet_grpc.Base.HashMap.{get, modify, get-modify}
use nullnet_grpc.Proto.{Net, NetMessage}
use nullnet_grpc.Net.{IpNetworkCrate, setup}
use nullnet_grpc.Net.Sides.{IsLawful, server_address, setup_address}
use nullnet_grpc.Orchestrator.{
  Orchestrator, OutboundStream, acknowledged, send_net_setup, push_message,
}
use nullnet_grpc.Orchestrator.Laws.{made_some}

-- The node has a channel, and its receiver lives.
abbrev pub IsUp : IpAddr → Orchestrator → Type 0
IsUp ip o = (s : OutboundStream) × (get ip o.clients ≡ some s) × (s.is_open ≡ true)

-- A message that is sent closes no channel.
pushed-IsUp :
    (dest ip : IpAddr) (m : NetMessage) (o : Orchestrator)
    → IsUp ip o
    → IsUp ip (record o { clients = modify dest (push_message m) o.clients })
pushed-IsUp dest ip m o (s, there, open_s) = elim (Bool-cases (dest == ip)) [
  | inl here ↦ (
    push_message m s,
    rw (get-modify dest ip (push_message m) o.clients, here, there) refl,
    open_s,
  )
  | inr elsewhere ↦ (s, rw (get-modify dest ip (push_message m) o.clients, elsewhere) there, open_s)
]

module _ (crate : IpNetworkCrate) (lawful : IsLawful crate) (net : Net) where
  -- A setup that is acknowledged gives the server's address, and channels that were open stay open.
  pub send_net_setup-delivered :
      (msg_id : String) (dest : IpAddr) (name : Option String) (id : ℕ) (remote : IpAddr)
      (client_docker server_docker : Option String) (dnat_port : Option ℕ) (o : Orchestrator)
      → IsUp dest o
      → ((send_net_setup crate net msg_id acknowledged dest name id remote
            (client_docker, server_docker)
            dnat_port
            o).1
          ≡ some (server_address net id server_docker))
        × ((ip : IpAddr)
            → IsUp ip o
            → IsUp ip
                (send_net_setup crate net msg_id acknowledged dest name id remote
                  (client_docker, server_docker)
                  dnat_port
                  o).0)
  unfolding send_net_setup
  send_net_setup-delivered msg_id dest name id remote client_docker server_docker dnat_port o
        (s, there, open_s) =
      let address =
        setup_address crate lawful net msg_id dest name id remote client_docker server_docker
          dnat_port in
      let ((a, message), made) =
        made_some
          (setup crate net msg_id dest name id remote (client_docker, server_docker) dnat_port)
          (server_address net id server_docker) address in
      let same : a ≡ server_address net id server_docker =
        some-injective _ _ (rw made at address) in
      (
        rw (there, made, open_s, send_net_setup) (ap some same),
        λ ip up. rw (there, made, open_s, send_net_setup) (pushed-IsUp dest ip message o up),
      )
