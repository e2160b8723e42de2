-- ===== src/Tests/Networks.antt =====
-- The addresses and messages of src/net.rs on concrete networks, with a concrete `ipnetwork`.
use nullnet_grpc.Base.{
  ℕ, ◌≡◌, ◌+◌, ◌*◌, ◌%◌, ◌^◌, ◌<◌, true, string_eq, [], refl, none, some, arith, leb, if◌then◌else◌,
  Ipv4Addr, ipv4_to_string,
}
use nullnet_grpc.Base.HashMap.{get}
use nullnet_grpc.Proto.{vlan, vxlan}
use nullnet_grpc.Net.{IpNetworkCrate, offset, block_addr, setup}
use nullnet_grpc.Net.Blocks.{block_no_overflow, block_addr_injective}
use nullnet_grpc.Net.Sides.{IsLawful, server_address, returned, setup_address}
use nullnet_grpc.Orchestrator.{Orchestrator, new, add_client, acknowledged, send_net_setup}
use nullnet_grpc.Orchestrator.Laws.{send_net_setup-pending}

abbrev pub crate : IpNetworkCrate
crate = record {
  Ipv4Network = Ipv4Addr;
  new_network = λ a prefix. if leb prefix 32 then some a else none;
  ip = λ n. n;
  network_to_string = ipv4_to_string;
}

pub crate-IsLawful : IsLawful crate
crate-IsLawful = record { makes = λ a prefix small. (a, ground arith, refl) }

block_no_overflow_example :
    (offset vxlan 2_097_151 ≡ 2_097_151 * 8)
    × (offset vxlan 2_097_151 < 2 ^ 24)
    × ((block_addr (offset vxlan 2_097_151) 7).o3 ≡ offset vxlan 2_097_151 % 256 + 7)
block_no_overflow_example = block_no_overflow vxlan 2_097_151 7 (omega arith) (omega arith)

abbrev some_id : ℕ
some_id = 101

abbrev some_place : ℕ
some_place = 2

block_addr_injective_example : (some_id ≡ some_id) × (some_place ≡ some_place)
block_addr_injective_example =
    block_addr_injective vlan some_id some_id some_place some_place (omega arith) (omega arith)
      (omega arith) (omega arith) refl

setup_address_example :
    returned
      (setup crate vxlan "m" "192.168.1.2" (some "web") 101 "192.168.1.3" (none, some "c1") none)
    ≡ some (server_address vxlan 101 (some "c1"))
setup_address_example =
    setup_address crate crate-IsLawful vxlan "m" "192.168.1.2" (some "web") 101 "192.168.1.3" none
      (some "c1") none

-- One node is connected, and its channel is open.
abbrev connected : Orchestrator
connected = add_client "192.168.1.2" (record { is_open = true; messages = [] }) new

send_net_setup-pending_example :
    get "m"
      (send_net_setup crate vlan "m" acknowledged "192.168.1.2" none 101 "192.168.1.3"
        (none, none)
        none
        connected).0.pending
    ≡ get "m" connected.pending
unfolding new get
send_net_setup-pending_example =
    send_net_setup-pending crate vlan crate-IsLawful "m" acknowledged "192.168.1.2" none 101
      "192.168.1.3" none none none connected refl "m"
