-- ===== src/Net/Sides.antt =====
-- The messages to the two ends of one network, and the addresses that setups return (src/net.rs).
use nullnet_grpc.Base.{ℕ, ◌≤◌, ◌≡◌, refl, String, Option, none, some, arith, IpAddr, Ipv4Addr}
use mathlib.Core.Option
use nullnet_grpc.Proto.{Net, vxlan, vlan, NetMessage}
use nullnet_grpc.Net.{IpNetworkCrate, block_addr, offset, setup, vlan_setup, vxlan_setup}

-- The documented behaviour of `Ipv4Network::new`: it fails only for a prefix above 32, and `ip` gives
-- the address back.
pub record IsLawful (crate : IpNetworkCrate) : Type 0 where
  pub makes :
      (a : Ipv4Addr) (prefix : ℕ)
      → prefix ≤ 32
      → (n : crate.Ipv4Network) × (crate.new_network a prefix ≡ some n) × (crate.ip n ≡ a)

-- The address at which the server's end is reached: for a VXLAN that of its namespace if a container
-- serves, else that of its bridge.
abbrev pub server_address : Net → ℕ → Option String → Ipv4Addr
server_address vlan id server_docker = block_addr (offset vlan id) 1
server_address vxlan id none = block_addr (offset vxlan id) 2
server_address vxlan id (some docker) = block_addr (offset vxlan id) 1

-- The address that a setup returns beside its message.
abbrev pub returned : Option (Ipv4Addr × NetMessage) → Option Ipv4Addr
returned = Option.map (λ r. r.0)

module _ (crate : IpNetworkCrate) (lawful : IsLawful crate) where
  vxlan_address :
      (msg_id : String) (dest : IpAddr) (name : Option String) (id : ℕ) (remote : IpAddr)
      (client_docker server_docker : Option String) (dnat_port : Option ℕ)
      → returned
          (vxlan_setup crate msg_id dest name id remote (client_docker, server_docker) dnat_port)
        ≡ some (server_address vxlan id server_docker)
  unfolding vxlan_setup
  vxlan_address msg_id dest name id remote client_docker server_docker dnat_port =
      let (n₁, made₁, ip₁) = lawful.makes (block_addr (offset vxlan id) 1) 29 (omega arith) in
      let (n₂, made₂, ip₂) = lawful.makes (block_addr (offset vxlan id) 2) 29 (omega arith) in
      let (n₃, made₃, ip₃) = lawful.makes (block_addr (offset vxlan id) 3) 29 (omega arith) in
      let (n₄, made₄, ip₄) = lawful.makes (block_addr (offset vxlan id) 4) 29 (omega arith) in
      ground (arith, made₁, made₂, made₃, made₄, ip₁, ip₂)

  -- Whichever end a setup is for, it succeeds, and what it returns is the address of the server's
  -- end, not that of the end itself.
  pub setup_address :
      (net : Net) (msg_id : String) (dest : IpAddr) (name : Option String) (id : ℕ)
      (remote : IpAddr) (client_docker server_docker : Option String) (dnat_port : Option ℕ)
      → returned
          (setup crate net msg_id dest name id remote (client_docker, server_docker) dnat_port)
        ≡ some (server_address net id server_docker)
  unfolding setup vlan_setup
  setup_address vlan msg_id dest name id remote client_docker server_docker dnat_port = refl
  setup_address vxlan msg_id dest name id remote client_docker server_docker dnat_port =
      vxlan_address msg_id dest name id remote client_docker server_docker dnat_port
