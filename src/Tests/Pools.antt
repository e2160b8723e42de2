-- ===== src/Tests/Pools.antt =====
-- The pool of src/net_id_pool.rs on concrete identifiers.
use nullnet_grpc.Base.{
  ℕ, ◌≡◌, none, some, refl, List, [], ◌∷◌, false, arith, if◌then◌else◌, nat_beq, set_contains,
}
use nullnet_grpc.Proto.{vlan}
use nullnet_grpc.NetIdPool.{NetIdPool, allocate, free}
use nullnet_grpc.NetIdPool.Invariant.{IsValid, in_use, Allocates, allocate-Allocates, free_lem}
use nullnet_grpc.NetIdPool.History.{Call, allocates, frees, Distinct, run, start, run-Distinct}

-- Two identifiers are taken, the first is given back, and two more are taken.
abbrev calls : List Call
calls = allocates ∷ allocates ∷ frees 101 ∷ allocates ∷ allocates ∷ []

run-Distinct_example :
    Distinct (run vlan calls start).owned
    × ((j : ℕ) → in_use (run vlan calls start).pool j ≡ set_contains j (run vlan calls start).owned)
run-Distinct_example = run-Distinct vlan calls

-- 101 and 103 are in use, 102 was freed.
abbrev used_pool : NetIdPool
used_pool = record { next_fresh = 104; freed = 102 ∷ [] }

used_pool-IsValid : IsValid vlan used_pool
used_pool-IsValid = record {
  low = omega arith;
  high = omega arith;
  ascending = (omega arith, tt);
  below = (omega arith, tt);
}

allocate-Allocates_example : Allocates vlan used_pool (allocate vlan used_pool)
allocate-Allocates_example = allocate-Allocates vlan used_pool used_pool-IsValid

free_lem_example :
    IsValid vlan (free vlan 103 used_pool)
    × ((j : ℕ)
        → in_use (free vlan 103 used_pool) j
          ≡ (if nat_beq j 103 then false else in_use used_pool j))
free_lem_example = free_lem vlan used_pool 103 used_pool-IsValid (omega arith)

-- The freed identifier is taken before a fresh one.
allocate_test : allocate vlan used_pool ≡ (record { next_fresh = 104; freed = [] }, some 102)
unfolding allocate
allocate_test = refl

exhausted_test :
    allocate vlan (record { next_fresh = 4095; freed = [] })
    ≡ (record { next_fresh = 4095; freed = [] }, none)
unfolding allocate
exhausted_test = refl
