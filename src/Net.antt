-- ===== src/Net.antt =====
-- src/net.rs: the addresses of a network and the messages that set it up and tear it down. The crate
-- `ipnetwork` is a parameter. `u32` and `u8` arithmetic is written with its wrap-around.
pub mod Blocks
pub mod Sides
use Prim.Native.String.{◌++◌}
use nullnet_grpc.Base.{
  ℕ, ◌+◌, ◌*◌, ◌/◌, ◌%◌, ◌^◌, String, Bool, true, false, Option, none, some, is_some, if◌then◌else◌,
  IpAddr, Ipv4Addr, decimal, ipv4_to_string,
}
use nullnet_grpc.Base.Results.{◌>>=◌}
use mathlib.Core.Option
use nullnet_grpc.Proto.{
  Net, vxlan, vlan, MsgId, HostMapping, VlanSetup, VlanTeardown, VxlanSetup, VxlanTeardown, Message,
  NetMessage,
}

-- What the code uses of the crate `ipnetwork`: `Ipv4Network::new`, with its error as `none`,
-- `Ipv4Network::ip` and the text of a network.
pub record IpNetworkCrate : Type 1 where
  pub Ipv4Network : Type 0
  pub new_network : Ipv4Addr → ℕ → Option Ipv4Network
  pub ip : Ipv4Network → Ipv4Addr
  pub network_to_string : Ipv4Network → String

-- The addresses per identifier: a /30 block for a VLAN, a /29 block for a VXLAN.
abbrev pub block_size : Net → ℕ
block_size vlan = 4
block_size vxlan = 8

-- `id * 4` and `id * 8` on `u32`.
abbrev pub offset : Net → ℕ → ℕ
offset net id = id * block_size net % 2 ^ 32

-- `Ipv4Addr::new(10, a, b, c + k)` for `let [_, a, b, c] = offset.to_be_bytes()`.
abbrev pub block_addr : ℕ → ℕ → Ipv4Addr
block_addr off k = record {
  o0 = 10;
  o1 = off / 65536 % 256;
  o2 = off / 256 % 256;
  o3 = (off % 256 + k) % 256;
}

-- The name of a namespace or bridge, `format!("ns_{id}_{side}")`.
unfoldable pub device_name : String → ℕ → String → String
unfolding decimal
device_name prefix id side = prefix ++ decimal id ++ "_" ++ side

unfoldable pub vlan_setup :
    String → IpAddr → Option String → ℕ → IpAddr → Option (Ipv4Addr × NetMessage)
vlan_setup msg_id dest remote_server_name vlan_id remote =
    let off = offset vlan vlan_id in
    let server_veth = block_addr off 1 in
    let client_veth = block_addr off 2 in
    let is_client = is_some remote_server_name in
    some (
      server_veth,
      record {
        message = some (
            Message.vlan_setup (record {
              msg_id = some (record { id = msg_id });
              vlan_id = vlan_id;
              local_veth = ipv4_to_string (if is_client then client_veth else server_veth);
              remote_veth = ipv4_to_string (if is_client then server_veth else client_veth);
              local_ip = dest;
              remote_ip = remote;
              host_mapping =
                  Option.map (λ name. record { ip = ipv4_to_string server_veth; name = name })
                    remote_server_name;
            }));
      },
    )

module _ (crate : IpNetworkCrate) where
  open crate use {Ipv4Network, new_network, ip, network_to_string}

  -- The networks, the container and the side of one end; the client's end has networks of its own.
  abbrev pub vxlan_end :
      ℕ
      → Option String
      → Option String × Option String
      → Ipv4Network
      → Ipv4Network
      → Option (Ipv4Network × Ipv4Network × Option String × String)
  vxlan_end off (some _) (client_docker, server_docker) ns_net_server br_net_server = do
    ns_net_client ← new_network (block_addr off 3) 29
    br_net_client ← new_network (block_addr off 4) 29
    some (ns_net_client, br_net_client, client_docker, "c")
  vxlan_end off none (client_docker, server_docker) ns_net_server br_net_server =
      some (ns_net_server, br_net_server, server_docker, "s")

  unfoldable pub vxlan_setup :
      String
      → IpAddr
      → Option String
      → ℕ
      → IpAddr
      → Option String × Option String
      → Option ℕ
      → Option (Ipv4Addr × NetMessage)
  vxlan_setup msg_id dest remote_server_name vxlan_id remote docker_containers dnat_port = do
    let off = offset vxlan vxlan_id
    ns_net_server ← new_network (block_addr off 1) 29
    br_net_server ← new_network (block_addr off 2) 29
    (ns_net, br_net, docker_container, side) ←
        vxlan_end off remote_server_name docker_containers ns_net_server br_net_server
    let server_net_ip = if is_some docker_containers.1 then ip ns_net_server else ip br_net_server
    some (
      server_net_ip,
      record {
        message = some (
            Message.vxlan_setup (record {
              msg_id = some (record { id = msg_id });
              vxlan_id = vxlan_id;
              ns_name = device_name "ns_" vxlan_id side;
              ns_net = network_to_string ns_net;
              br_name = device_name "br_" vxlan_id side;
              br_net = network_to_string br_net;
              local_ip = dest;
              remote_ip = remote;
              host_mapping =
                  Option.map (λ name. record { ip = ipv4_to_string server_net_ip; name = name })
                    remote_server_name;
              docker_container = docker_container;
              dnat_port = dnat_port;
            }));
      },
    )

  unfoldable pub setup :
      Net
      → String
      → IpAddr
      → Option String
      → ℕ
      → IpAddr
      → Option String × Option String
      → Option ℕ
      → Option (Ipv4Addr × NetMessage)
  unfolding vlan_setup vxlan_setup
  setup vlan msg_id dest remote_server_name net_id remote docker_containers dnat_port =
      vlan_setup msg_id dest remote_server_name net_id remote
  setup vxlan msg_id dest remote_server_name net_id remote docker_containers dnat_port =
      vxlan_setup msg_id dest remote_server_name net_id remote docker_containers dnat_port

unfoldable pub teardown : Net → ℕ → String → Option String → NetMessage
unfolding device_name
teardown vlan net_id side docker_container = record {
  message = some (Message.vlan_teardown (record { vlan_id = net_id }));
}
teardown vxlan net_id side docker_container = record {
  message = some (
      Message.vxlan_teardown (record {
        vxlan_id = net_id;
        ns_name = device_name "ns_" net_id side;
        br_name = device_name "br_" net_id side;
        docker_container = docker_container;
      }));
}
