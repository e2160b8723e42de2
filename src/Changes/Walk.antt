-- ===== src/Changes/Walk.antt =====
-- The rounds of the walk along the proxy dependencies (src/services/changes.rs).
pub mod Ranks
pub mod Keeping
pub mod Teardowns
pub mod Ending
use nullnet_grpc.Base.{
  ℕ, zero, suc, String, ◌<◌, ◌≡◌, refl, Bool, true, false, Option, none, some, List, [], ◌∷◌, ◌++◌,
  inl, inr, Option-cases, Bool-cases, is_empty, if◌then◌else◌, IpAddr, arith, All,
}
use nullnet_grpc.Base.Results.{◌>>=◌}
use mathlib.Core.Option
use nullnet_grpc.Clients.{new_service}
use nullnet_grpc.ServiceInfo.{ServiceMap, client_replica}
use nullnet_grpc.Changes.{
  Hop, DepEdge, hop_to, last_of, walk_level, deps_of, collect_dep_chain_edges, get_registered,
  emit_edge_and_probe_hop,
}

-- Every proxy dependency of a service ranks below the service.
abbrev pub Ranked : (String → ℕ) → ServiceMap → Type 0
Ranked rank services = (name : String) → All (λ d. rank d < rank name) (deps_of name services)

-- The hop that a level leads to is to one of its dependencies.
walk_level-next :
    (rank : String → ℕ) (n : ℕ) (here : Hop) (deps : List String) (services : ServiceMap)
    → All (λ d. rank d < n) deps
    → (there : Hop) → (walk_level here deps services).1 ≡ some there
    → rank there.0 < n
unfolding walk_level
walk_level-next rank n here [] services a there e = cc
walk_level-next rank n here (d ∷ deps) services a there e =
    elim (Option-cases (walk_level here deps services).1) [
      | inl last ↦ ground (arith, last)
      | inr (next, more) ↦
          ground (arith, more, walk_level-next rank n here deps services a.1 next more)
    ]

-- With more fuel than the rank of the service that it starts from, the walk ends.
pub collect_ends :
    (rank : String → ℕ) (services : ServiceMap)
    → Ranked rank services
    → (fuel : ℕ) (here : Hop) → rank here.0 < fuel
    → (edges : List DepEdge) × (collect_dep_chain_edges fuel here services ≡ some edges)
unfolding collect_dep_chain_edges
collect_ends rank services ranked zero here h = absurd (omega arith)
collect_ends rank services ranked (suc fuel) here h =
    elim (Bool-cases (is_empty (deps_of here.0 services))) [
      | inl leaf ↦ ([], rw leaf)
      | inr inner ↦ elim (Option-cases (walk_level here (deps_of here.0 services) services).1) [
        | inl last ↦ ((walk_level here (deps_of here.0 services) services).0, rw (inner, last))
        | inr (there, next) ↦
            let below =
              walk_level-next rank (rank here.0) here (deps_of here.0 services) services
                (ranked here.0) there next in
            let rest = collect_ends rank services ranked fuel there (omega (arith, below)) in
            (
              (walk_level here (deps_of here.0 services) services).0 ++ rest.0,
              rw (inner, next, rest.1),
            )
      ]
    ]

-- The last dependency decides where the walk goes on, if its edge is set up.
last_dep-next :
    (here there : Hop) (deps : List String) (services : ServiceMap)
    → (get_registered there.0 services >>= client_replica (new_service here.0 here.1 here.2))
      ≡ some (there.1, there.2)
    → (walk_level here (deps ++ there.0 ∷ []) services).1 ≡ some there
unfolding walk_level
last_dep-next here there [] services h = rw h refl
last_dep-next here there (d ∷ deps) services h =
    rw (last_dep-next here there deps services h, walk_level) refl

nonempty_deps : (deps : List String) (d : String) → is_empty (deps ++ d ∷ []) ≡ false
nonempty_deps [] d = refl
nonempty_deps (x ∷ deps) d = refl

-- A walk that goes on to a place from which it does not end does not end.
leads_on :
    (here there : Hop) (deps : List String) (services : ServiceMap) (fuel : ℕ)
    → deps_of here.0 services ≡ deps ++ there.0 ∷ []
    → (get_registered there.0 services >>= client_replica (new_service here.0 here.1 here.2))
      ≡ some (there.1, there.2)
    → collect_dep_chain_edges fuel there services ≡ none
    → collect_dep_chain_edges (suc fuel) here services ≡ none
unfolding collect_dep_chain_edges
leads_on here there deps services fuel d h out =
    rw (d, nonempty_deps deps there.0)
      (rw (last_dep-next here there deps services h, out, collect_dep_chain_edges) refl)

mutual_walk :
    (a b : Hop) (da db : List String) (services : ServiceMap)
    → deps_of a.0 services ≡ da ++ b.0 ∷ []
    → deps_of b.0 services ≡ db ++ a.0 ∷ []
    → (get_registered b.0 services >>= client_replica (new_service a.0 a.1 a.2)) ≡ some (b.1, b.2)
    → (get_registered a.0 services >>= client_replica (new_service b.0 b.1 b.2)) ≡ some (a.1, a.2)
    → (fuel : ℕ)
    → (collect_dep_chain_edges fuel a services ≡ none)
      × (collect_dep_chain_edges fuel b services ≡ none)
unfolding collect_dep_chain_edges
mutual_walk a b da db services ea eb hb ha zero = (refl, refl)
mutual_walk a b da db services ea eb hb ha (suc fuel) =
    let ih = mutual_walk a b da db services ea eb hb ha fuel in
    (leads_on a b da services fuel ea hb ih.1, leads_on b a db services fuel eb ha ih.0)

-- Where two services are each the last proxy dependency of the other, and the entry that each one's
-- replica has as a client of the other leads to the other's replica, the walk from one of them goes
-- round for ever: no fuel is enough.
pub collect_mutual_deps :
    (a b : Hop) (da db : List String) (services : ServiceMap)
    → deps_of a.0 services ≡ da ++ b.0 ∷ []
    → deps_of b.0 services ≡ db ++ a.0 ∷ []
    → (get_registered b.0 services >>= client_replica (new_service a.0 a.1 a.2)) ≡ some (b.1, b.2)
    → (get_registered a.0 services >>= client_replica (new_service b.0 b.1 b.2)) ≡ some (a.1, a.2)
    → (fuel : ℕ) → collect_dep_chain_edges fuel a services ≡ none
collect_mutual_deps a b da db services ea eb hb ha fuel =
    (mutual_walk a b da db services ea eb hb ha fuel).0
