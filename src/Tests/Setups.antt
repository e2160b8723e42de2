-- ===== src/Tests/Setups.antt =====
-- Concrete chain setups of src/nullnet_grpc_impl.rs.
use nullnet_grpc.Base.Results.{ok}
use nullnet_grpc.Base.HashMap.{get}
use nullnet_grpc.Base.{
  unspecified, ipv4_to_string, ℕ, zero, suc, ◌≡◌, ◌≤◌, ◌<◌, refl, true, none, some, List, [], ◌∷◌,
  is_some, length, arith, string_eq,
}
use nullnet_grpc.Proto.{Upstream, vlan}
use nullnet_grpc.Orchestrator.{new, timed_out}
use nullnet_grpc.Clients.{new_info, new_client}
use nullnet_grpc.Edge.{RegisteredEdge, new_registered}
use nullnet_grpc.ServiceInfo.{
  RegisteredServiceInfo, is_client_setup, ServiceMap, registered, Replica, new_replica,
  build_linear_chain,
}
use nullnet_grpc.Changes.{World}
use nullnet_grpc.GrpcImpl.{handle_proxy_request, Readings, net_chain_setup, register_edges}
use nullnet_grpc.GrpcImpl.Progress.{turns, net_chain_setup_ends}
use nullnet_grpc.GrpcImpl.Linked.{Registers, build_linear_chain-Registers}
use nullnet_grpc.GrpcImpl.Session.{HasSession, handle_proxy_request-HasSession}
use nullnet_grpc.Tests.Networks.{crate}

abbrev pub services : ServiceMap
services =
    (
      "web",
      registered (record {
        proxy_deps = "db" ∷ [];
        triggers = [];
        timeout = some 60;
        max_networks = none;
        replicas = new_replica "10.1.1.2" 80 none ∷ [];
      }),
    )
    ∷ (
      "db",
      registered (record {
        proxy_deps = [];
        triggers = [];
        timeout = none;
        max_networks = none;
        replicas = new_replica "10.1.1.3" 5432 none ∷ [];
      }),
    )
    ∷ []

abbrev pub world : World
world = record { services = services; orchestrator = new }

-- The edge from a proxy to "web".
abbrev pub edge : RegisteredEdge
edge =
    new_registered "10.1.1.1" (new_client "alice" (some "10.1.1.1")) none "10.1.1.2"
      (new_client "web" none) none

-- No node answers.
abbrev pub silent : Readings
silent = record {
  now = 5;
  time_ms = 3;
  server_msg_id = "m1";
  server_reply = timed_out;
  client_msg_id = "m2";
  client_reply = timed_out;
}

abbrev pub five_turns : List (ℕ × Readings)
five_turns = (0, silent) ∷ (0, silent) ∷ (0, silent) ∷ (0, silent) ∷ (0, silent) ∷ []

five_turns_fair : (i : ℕ) → i < length (edge ∷ []) → 5 ≤ turns i five_turns
five_turns_fair zero h = omega arith
five_turns_fair (suc i) h = absurd (omega (arith, h))

net_chain_setup_ends_example :
    is_some (net_chain_setup crate vlan five_turns (edge ∷ []) world) ≡ true
net_chain_setup_ends_example =
    net_chain_setup_ends crate vlan five_turns (edge ∷ []) world five_turns_fair

build_linear_chain-Registers_example :
    Registers "web" "10.1.1.2" none
      ("db" ∷ [])
      services
      (register_edges (build_linear_chain ("db" ∷ []) "web" "10.1.1.2" none services))
build_linear_chain-Registers_example =
    build_linear_chain-Registers ("db" ∷ []) "web" "10.1.1.2" none services

abbrev pub session_replica : Replica
session_replica = record {
  ip = "10.1.1.2";
  port = 80;
  docker_container = none;
  clients = record {
    clients =
        (
          new_client "alice" (some "10.1.1.1"),
          new_info 0 "10.1.1.1" unspecified unspecified 101 3 none,
        )
        ∷ [];
  };
}

-- "alice" is set up on the only replica of "web".
abbrev pub session_reg : RegisteredServiceInfo
session_reg = record {
  proxy_deps = [];
  triggers = [];
  timeout = some 60;
  max_networks = none;
  replicas = session_replica ∷ [];
}

abbrev pub session_world : World
session_world = record { services = ("web", registered session_reg) ∷ []; orchestrator = new }

abbrev session_upstream : Upstream
session_upstream = record { ip = ipv4_to_string unspecified; port = 80 }

session : HasSession "web" (new_client "alice" (some "10.1.1.1")) session_upstream session_world
unfolding get is_client_setup
session = record { reg = session_reg; is_registered = refl; entry_point = refl; is_setup = refl }

handle_proxy_request-HasSession_example :
    (w' : World) × (handle_proxy_request crate vlan 9 7 [] "web" "10.1.1.1" "alice" session_world
      ≡ some (w', ok session_upstream))
    × (w'.orchestrator ≡ new)
    × HasSession "web" (new_client "alice" (some "10.1.1.1")) session_upstream w'
handle_proxy_request-HasSession_example =
    handle_proxy_request-HasSession crate vlan "web" "10.1.1.1" "alice" 9 7 [] session_upstream
      session_world session
