-- ===== src/Edge.antt =====
-- src/services/edge.rs: one edge of a dependency chain.
use nullnet_grpc.Base.{ℕ, String, Option, none, some, IpAddr}
use nullnet_grpc.Clients.{Client}

pub record Edge : Type 0 where
  pub client : Option IpAddr × Client
  pub server : Option IpAddr × Client
  pub client_docker : Option String
  pub server_docker : Option String

-- `Edge::new`.
abbrev pub new_edge :
    Option IpAddr → Client → Option String → Option IpAddr → Client → Option String → Edge
new_edge client_ip client client_docker server_ip server server_docker = record {
  client = (client_ip, client);
  server = (server_ip, server);
  client_docker = client_docker;
  server_docker = server_docker;
}

pub record RegisteredEdge : Type 0 where
  pub client : IpAddr × Client
  pub server : IpAddr × Client
  pub client_docker : Option String
  pub server_docker : Option String
  pub backend_entry_port : Option ℕ

-- `RegisteredEdge::new`.
abbrev pub new_registered :
    IpAddr → Client → Option String → IpAddr → Client → Option String → RegisteredEdge
new_registered client_ip client client_docker server_ip server server_docker = record {
  client = (client_ip, client);
  server = (server_ip, server);
  client_docker = client_docker;
  server_docker = server_docker;
  backend_entry_port = none;
}

abbrev pub both_ends : Edge → Option IpAddr → Option IpAddr → Option RegisteredEdge
both_ends e (some client_ip) (some server_ip) =
    some (new_registered client_ip e.client.1 e.client_docker server_ip e.server.1 e.server_docker)
both_ends e _ _ = none

abbrev pub into_registered : Edge → Option RegisteredEdge
into_registered e = both_ends e e.client.0 e.server.0
