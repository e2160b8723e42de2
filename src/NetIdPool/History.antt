-- ===== src/NetIdPool/History.antt =====
-- Sequences of calls on the pool, and the identifiers that the callers hold (src/net_id_pool.rs).
use nullnet_grpc.Base.{
  ℕ, ◌≡◌, sym, ◌∙◌, inl, inr, Bool-cases, false, Option, none, some, List, [], ◌∷◌, arith, nat_beq,
  if◌then◌else◌, set_contains,
}
use nullnet_grpc.Proto.{Net}
use nullnet_grpc.NetIdPool.{NetIdPool, new, allocate, free}
use nullnet_grpc.NetIdPool.Invariant.{
  IsValid, in_use, Allocates, given, exhausted, new-IsValid, allocate-Allocates, free_lem,
}

pub data Call : Type 0 where
  allocates : Call
  frees : ℕ → Call

pub record Held : Type 0 where
  pub pool : NetIdPool
  pub owned : List ℕ

drop : ℕ → List ℕ → List ℕ
drop id [] = []
drop id (x ∷ xs) = if nat_beq id x then xs else x ∷ drop id xs

hand_out : List ℕ → NetIdPool × Option ℕ → Held
hand_out owned (q, none) = record { pool = q; owned = owned }
hand_out owned (q, some id) = record { pool = q; owned = id ∷ owned }

-- A caller frees only what it holds.
step : Net → Call → Held → Held
unfolding hand_out drop
step net allocates h = hand_out h.owned (allocate net h.pool)
step net (frees id) h =
    if set_contains id h.owned
    then record { pool = free net id h.pool; owned = drop id h.owned }
    else h

pub run : Net → List Call → Held → Held
run net [] h = h
run net (c ∷ cs) h = run net cs (step net c h)

abbrev pub Distinct : List ℕ → Type 0
Distinct [] = Unit {0}
Distinct (x ∷ xs) = (set_contains x xs ≡ false) × Distinct xs

record Tracks (net : Net) (h : Held) : Type 0 where
  valid : IsValid net h.pool
  distinct : Distinct h.owned
  agrees : (j : ℕ) → in_use h.pool j ≡ set_contains j h.owned

contains-drop :
    (id j : ℕ) (xs : List ℕ)
    → Distinct xs
    → set_contains j (drop id xs) ≡ (if nat_beq j id then false else set_contains j xs)
unfolding drop
contains-drop id j [] d = ground arith
contains-drop id j (x ∷ xs) d = ground (arith, contains-drop id j xs d.1)

drop-Distinct : (id : ℕ) (xs : List ℕ) → Distinct xs → Distinct (drop id xs)
unfolding drop
drop-Distinct id [] d = tt
drop-Distinct id (x ∷ xs) d = ground (arith, drop-Distinct id xs d.1, contains-drop id x xs d.1)

hand_out-Tracks :
    (net : Net) (h : Held) {r : NetIdPool × Option ℕ}
    → Tracks net h
    → Allocates net h.pool r
    → Tracks net (hand_out h.owned r)
unfolding hand_out
hand_out-Tracks net h t (given id lo hi free' least marks v) = record {
  valid = v;
  distinct = (sym (t.agrees id) ∙ free', t.distinct);
  agrees = λ j. ground (arith, marks j, t.agrees j);
}
hand_out-Tracks net h t (exhausted full) = t

step-Tracks : (net : Net) (c : Call) (h : Held) → Tracks net h → Tracks net (step net c h)
unfolding step
step-Tracks net allocates h t = hand_out-Tracks net h t (allocate-Allocates net h.pool t.valid)
step-Tracks net (frees id) h t = elim (Bool-cases (set_contains id h.owned)) [
  | inl held ↦
      let f = free_lem net h.pool id t.valid (ground (arith, t.agrees id)) in
      rw (held, step)
        (record {
          valid = f.0;
          distinct = drop-Distinct id h.owned t.distinct;
          agrees = λ j. ground (arith, f.1 j, t.agrees j, contains-drop id j h.owned t.distinct);
        })
  | inr other ↦ rw (other, step) t
]

run-Tracks : (net : Net) (cs : List Call) (h : Held) → Tracks net h → Tracks net (run net cs h)
unfolding run
run-Tracks net [] h t = t
run-Tracks net (c ∷ cs) h t = run-Tracks net cs (step net c h) (step-Tracks net c h t)

abbrev pub start : Held
start = record { pool = new; owned = [] }

start-Tracks : (net : Net) → Tracks net start
unfolding new
start-Tracks net = record { valid = new-IsValid net; distinct = tt; agrees = λ j. ground arith }

-- After any sequence of allocations and of frees of held identifiers, no identifier is held twice,
-- and the pool has exactly the held ones in use.
pub run-Distinct :
    (net : Net) (cs : List Call)
    → Distinct (run net cs start).owned
      × ((j : ℕ) → in_use (run net cs start).pool j ≡ set_contains j (run net cs start).owned)
run-Distinct net cs = let t = run-Tracks net cs start (start-Tracks net) in (t.distinct, t.agrees)
