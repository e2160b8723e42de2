-- ===== src/NetIdPool.antt =====
-- src/net_id_pool.rs: the pool of VLAN and VXLAN identifiers. A `u32` is a number that wraps at
-- 2 ^ 32 where the code adds to it.
pub mod Invariant
pub mod History
use nullnet_grpc.Base.{
  ℕ, ◌+◌, ◌%◌, ◌^◌, ◌&&◌, Option, none, some, [], ◌∷◌, ltb, leb, if◌then◌else◌, BTreeSet,
  set_insert, set_remove,
}
use nullnet_grpc.Proto.{Net, vxlan, vlan}

abbrev pub min_net_id : ℕ
min_net_id = 101

abbrev pub max_net_id : Net → ℕ
max_net_id vlan = 4094
max_net_id vxlan = 2_097_151

pub record NetIdPool : Type 0 where
  pub next_fresh : ℕ
  pub freed : BTreeSet

unfoldable pub new : NetIdPool
new = record { next_fresh = min_net_id; freed = [] }

allocate_fresh : Net → NetIdPool → NetIdPool × Option ℕ
allocate_fresh net p =
    if leb p.next_fresh (max_net_id net)
    then (record p { next_fresh = (p.next_fresh + 1) % 2 ^ 32 }, some p.next_fresh)
    else (p, none)

-- The lowest freed identifier if there is one, else a fresh one.
unfoldable pub allocate : Net → NetIdPool → NetIdPool × Option ℕ
unfolding set_remove allocate_fresh
allocate net p = elim p.freed [
  | [] ↦ allocate_fresh net p
  | id ∷ rest ↦ (record p { freed = set_remove id (id ∷ rest) }, some id)
]

unfoldable pub free : Net → ℕ → NetIdPool → NetIdPool
unfolding set_insert
free net id p =
    if leb min_net_id id && leb id (max_net_id net)
    then record p { freed = set_insert id p.freed }
    else p
