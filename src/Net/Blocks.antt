-- ===== src/Net/Blocks.antt =====
-- The address blocks of the identifiers that the pool hands out (src/net.rs).
use nullnet_grpc.Base.{ℕ, ◌+◌, ◌*◌, ◌%◌, ◌≤◌, ◌<◌, ◌^◌, ◌≡◌, ap, arith, Ipv4Addr}
use nullnet_grpc.Proto.{Net, vxlan, vlan}
use nullnet_grpc.NetIdPool.{max_net_id}
use nullnet_grpc.Net.{block_size, offset, block_addr}

-- Neither the product of the identifier and the block size nor the sum in the last octet wraps,
-- and the block lies in 10.0.0.0/8: the byte that the code drops is 0.
pub block_no_overflow :
    (net : Net) (id k : ℕ)
    → id ≤ max_net_id net
    → k < block_size net
    → (offset net id ≡ id * block_size net)
      × (offset net id < 2 ^ 24)
      × ((block_addr (offset net id) k).o3 ≡ offset net id % 256 + k)
block_no_overflow vlan id k h b = (omega arith, omega arith, omega arith)
block_no_overflow vxlan id k h b = (omega arith, omega arith, omega arith)

-- An address of a block determines its identifier and its place in the block: no two networks
-- share an address.
pub block_addr_injective :
    (net : Net) (id id' k k' : ℕ)
    → id ≤ max_net_id net
    → id' ≤ max_net_id net
    → k < block_size net
    → k' < block_size net
    → block_addr (offset net id) k ≡ block_addr (offset net id') k'
    → (id ≡ id') × (k ≡ k')
block_addr_injective vlan id id' k k' h h' b b' e =
    let e1 = ap (λ (a : Ipv4Addr). a.o1) e in
    let e2 = ap (λ (a : Ipv4Addr). a.o2) e in
    let e3 = ap (λ (a : Ipv4Addr). a.o3) e in (omega arith, omega arith)
block_addr_injective vxlan id id' k k' h h' b b' e =
    let e1 = ap (λ (a : Ipv4Addr). a.o1) e in
    let e2 = ap (λ (a : Ipv4Addr). a.o2) e in
    let e3 = ap (λ (a : Ipv4Addr). a.o3) e in (omega arith, omega arith)
