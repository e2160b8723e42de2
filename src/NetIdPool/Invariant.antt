-- ===== src/NetIdPool/Invariant.antt =====
-- The consistency of the pool's state and the identifiers in use (src/net_id_pool.rs).
use nullnet_grpc.Base.{
  ℕ, suc, ◌+◌, ◌≤◌, ◌<◌, ◌≡◌, refl, ◌⊎◌, inl, inr, some-injective, Bool-cases, Bool, true, false,
  ◌&&◌, not, Option, none, some, List, [], ◌∷◌, arith, ltb, leb, nat_beq, if◌then◌else◌, All,
  Ascending, set_contains, contains-insert, insert-Ascending, insert-All, contains_below,
}
use nullnet_grpc.Proto.{Net, vxlan, vlan}
use nullnet_grpc.NetIdPool.{NetIdPool, allocate_fresh, min_net_id, max_net_id, new, allocate, free}

-- The freed identifiers ascend, and lie below the next fresh one, which is at most one past the end.
pub record IsValid (net : Net) (p : NetIdPool) : Type 0 where
  pub low : min_net_id ≤ p.next_fresh
  pub high : p.next_fresh ≤ max_net_id net + 1
  pub ascending : Ascending min_net_id p.freed
  pub below : All (λ x. x < p.next_fresh) p.freed

-- Handed out and not freed.
abbrev pub in_use : NetIdPool → ℕ → Bool
in_use p id = leb min_net_id id && (ltb id p.next_fresh && not (set_contains id p.freed))

pub max_net_id-lt : (net : Net) → max_net_id net < 2_097_152
max_net_id-lt vlan = omega arith
max_net_id-lt vxlan = omega arith

pub new-IsValid : (net : Net) → IsValid net new
unfolding new
new-IsValid vlan = omega arith
new-IsValid vxlan = omega arith

-- What one allocation does.
pub data Allocates (net : Net) (p : NetIdPool) : NetIdPool × Option ℕ → Type 0 where
  given :
      {q : NetIdPool} (id : ℕ)
      → min_net_id ≤ id
      → id ≤ max_net_id net
      → in_use p id ≡ false
      → ((j : ℕ) → min_net_id ≤ j → j < id → in_use p j ≡ true)
      → ((j : ℕ) → in_use q j ≡ (if nat_beq j id then true else in_use p j))
      → IsValid net q
      → Allocates net p (q, some id)
  exhausted :
      ((j : ℕ) → min_net_id ≤ j → j ≤ max_net_id net → in_use p j ≡ true)
      → Allocates net p (p, none)

All-weaken : {m n : ℕ} (xs : List ℕ) → m ≤ n → All (λ x. x < m) xs → All (λ x. x < n) xs
All-weaken [] h a = tt
All-weaken (x ∷ xs) h a = (omega arith, All-weaken xs h a.1)

not_contains_above :
    (n j : ℕ) (xs : List ℕ) → All (λ x. x < n) xs → n ≤ j → set_contains j xs ≡ false
not_contains_above n j [] a h = refl
not_contains_above n j (x ∷ xs) a h = ground (arith, not_contains_above n j xs a.1 h)

fresh-Allocates :
    (net : Net) (p : NetIdPool)
    → p.freed ≡ []
    → IsValid net p
    → Allocates net p (allocate_fresh net p)
unfolding allocate_fresh
fresh-Allocates net p e v = elim (Bool-cases (leb p.next_fresh (max_net_id net))) [
  | inl room ↦
      rw (room, allocate_fresh)
        (given p.next_fresh v.low (ground arith) (ground arith) (λ j h k. ground arith)
          (λ j. ground (arith, max_net_id-lt net))
          (record {
            low = ground (arith, max_net_id-lt net);
            high = ground (arith, max_net_id-lt net);
            ascending = v.ascending;
            below = rw e tt;
          }))
  | inr full ↦ rw (full, allocate_fresh) (exhausted (λ j h k. ground arith))
]

-- Without its least element the set still holds every other one.
contains_rest :
    (id j : ℕ) (rest : List ℕ)
    → Ascending (suc id) rest
    → set_contains j rest ≡ (set_contains j (id ∷ rest) && not (nat_beq j id))
contains_rest id j rest a = ground (arith, contains_below (suc id) j rest a)

Ascending-weaken : (m n : ℕ) (xs : List ℕ) → m ≤ n → Ascending n xs → Ascending m xs
Ascending-weaken m n [] h a = tt
Ascending-weaken m n (x ∷ xs) h a = (omega arith, a.1)

reuse-Allocates :
    (net : Net) (p : NetIdPool) (id : ℕ) (rest : List ℕ)
    → p.freed ≡ id ∷ rest
    → IsValid net p
    → Allocates net p (record p { freed = rest }, some id)
reuse-Allocates net p id rest e v =
    given id asc.0 (omega (arith, v.high, low.0)) (rw e (ground arith))
      (λ j h k. rw e (ground (arith, contains_below (suc id) j rest)))
      (λ j. rw e (ground (arith, contains_rest id j rest asc.1, low.0)))
      (record {
        low = v.low;
        high = v.high;
        ascending = Ascending-weaken min_net_id (suc id) rest (omega (arith, asc.0)) asc.1;
        below = low.1;
      })
  where
    asc : Ascending min_net_id (id ∷ rest)
    asc = rw e at v.ascending

    low : All (λ x. x < p.next_fresh) (id ∷ rest)
    low = rw e at v.below

allocate-none_freed :
    (net : Net) (p : NetIdPool) → p.freed ≡ [] → allocate net p ≡ allocate_fresh net p
unfolding allocate
allocate-none_freed net p e = ground arith

allocate-some_freed :
    (net : Net) (p : NetIdPool) (id : ℕ) (rest : List ℕ)
    → p.freed ≡ id ∷ rest
    → allocate net p ≡ (record p { freed = rest }, some id)
unfolding allocate
allocate-some_freed net p id rest e = ground arith

allocate_cases :
    (net : Net) (p : NetIdPool) (xs : List ℕ)
    → p.freed ≡ xs
    → IsValid net p
    → Allocates net p (allocate net p)
allocate_cases net p [] e v = rw (allocate-none_freed net p e) (fresh-Allocates net p e v)
allocate_cases net p (id ∷ rest) e v =
    rw (allocate-some_freed net p id rest e) (reuse-Allocates net p id rest e v)

-- An allocation in a consistent pool gives the least identifier of the range that is not in use,
-- marks that one and no other as used, and keeps the pool consistent; it fails, and changes
-- nothing, only if every identifier of the range is in use.
pub allocate-Allocates :
    (net : Net) (p : NetIdPool) → IsValid net p → Allocates net p (allocate net p)
allocate-Allocates net p v = allocate_cases net p p.freed refl v

-- Freeing an identifier below the next fresh one keeps the pool consistent; afterwards that
-- identifier is not in use, and every other one is as before.
pub free_lem :
    (net : Net) (p : NetIdPool) (id : ℕ)
    → IsValid net p
    → id < p.next_fresh
    → IsValid net (free net id p)
      × ((j : ℕ) → in_use (free net id p) j ≡ (if nat_beq j id then false else in_use p j))
unfolding free
free_lem net p id v h = elim (Bool-cases (leb min_net_id id && leb id (max_net_id net))) [
  | inl range ↦
      rw (range, free)
        (
          record {
            low = v.low;
            high = v.high;
            ascending = insert-Ascending min_net_id id p.freed (ground arith) v.ascending;
            below = insert-All p.next_fresh id p.freed h v.below;
          },
          λ j. ground (arith, contains-insert id j p.freed),
        )
  | inr out ↦ rw (out, free) (v, λ j. ground (arith, v.high))
]

-- An identifier out of the range is ignored.
pub free_out_of_range :
    (net : Net) (p : NetIdPool) (id : ℕ)
    → (id < min_net_id) ⊎ (max_net_id net < id)
    → free net id p ≡ p
unfolding free
free_out_of_range net p id h = ground arith

allocated :
    (net : Net) (p : NetIdPool) {r : NetIdPool × Option ℕ}
    → Allocates net p r
    → IsValid net p
    → IsValid net r.0 × ((id : ℕ) → r.1 ≡ some id → in_use r.0 id ≡ true)
allocated net p (given id low high unused least marks v') v =
    (v', λ j e. ground (arith, marks j, some-injective id j e))
allocated net p (exhausted full) v = (v, λ j e. cc)

fresh_grows :
    (net : Net) (p : NetIdPool) → IsValid net p → p.next_fresh ≤ (allocate_fresh net p).0.next_fresh
unfolding allocate_fresh
fresh_grows net p v = elim (Bool-cases (leb p.next_fresh (max_net_id net))) [
  | inl room ↦ rw (room, allocate_fresh) (ground (arith, v.high, max_net_id-lt net))
  | inr full ↦ rw (full, allocate_fresh) (omega arith)
]

grows :
    (net : Net) (p : NetIdPool) (xs : List ℕ)
    → p.freed ≡ xs
    → IsValid net p
    → p.next_fresh ≤ (allocate net p).0.next_fresh
grows net p [] e v = rw (allocate-none_freed net p e) (fresh_grows net p v)
grows net p (id ∷ rest) e v = rw (allocate-some_freed net p id rest e) (omega arith)

-- An allocation never lowers the next fresh identifier, keeps the pool valid, and gives an identifier
-- below it.
pub allocate-next_fresh :
    (net : Net) (p : NetIdPool)
    → IsValid net p
    → (p.next_fresh ≤ (allocate net p).0.next_fresh)
      × IsValid net (allocate net p).0
      × ((id : ℕ) → (allocate net p).1 ≡ some id → id < (allocate net p).0.next_fresh)
allocate-next_fresh net p v =
    let (valid, used) = allocated net p (allocate-Allocates net p v) v in
    (grows net p p.freed refl v, valid, λ id e. ground (arith, used id e))
