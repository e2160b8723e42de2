-- ===== src/GrpcImpl/Rollback.antt =====
-- The pool of identifiers around a setup that fails (src/nullnet_grpc_impl.rs).
use nullnet_grpc.Base.{
  ℕ, ◌≡◌, refl, ◌∙◌, true, Option, none, some, inl, inr, Option-cases, Ipv4Addr, arith, subst, List,
  [], ◌∷◌, Bool-cases,
}
use nullnet_grpc.Proto.{Net}
use nullnet_grpc.NetIdPool.{NetIdPool, allocate, free}
use nullnet_grpc.NetIdPool.Invariant.{
  IsValid, in_use, Allocates, given, exhausted, allocate-Allocates, free_lem,
}
use nullnet_grpc.Net.{IpNetworkCrate}
use nullnet_grpc.Orchestrator.Laws.{send_net_setup-pool, send_net_teardown-pool}
use nullnet_grpc.Edge.{RegisteredEdge}
use nullnet_grpc.ServiceInfo.{ServiceMap}
use nullnet_grpc.Changes.{World, get_registered}
use nullnet_grpc.GrpcImpl.EdgeTask.{
  EdgeTask, starting, reserved, numbered, answered, orphaned, releasing, finished, Readings,
  success, failed, reserve, already_setup, obtain_id, exchange, commit, tear_down, server_name,
  step_task,
}

abbrev pub pool_of : World → NetIdPool
pool_of w = w.orchestrator.net_id_pool

-- The two pools are both valid and have the same identifiers in use.
abbrev pub SameUse : Net → NetIdPool → NetIdPool → Type 0
SameUse net p q = IsValid net q × ((j : ℕ) → in_use q j ≡ in_use p j)

taken_and_freed :
    (net : Net) (p q : NetIdPool) (id : ℕ)
    → Allocates net p (q, some id)
    → SameUse net p (free net id q)
taken_and_freed net p q id (given _ low high unused least marks v) =
    let used : in_use q id ≡ true = ground (arith, marks id) in
    let (v', frees) = free_lem net q id v (ground (arith, used)) in
    (v', λ j. ground (arith, frees j, marks j, unused))

SameUse-trans :
    (net : Net) (p q r : NetIdPool) → SameUse net p q → SameUse net q r → SameUse net p r
SameUse-trans net p q r u v = (v.0, λ j. v.1 j ∙ u.1 j)

none_taken :
    (net : Net) (p q q' : NetIdPool)
    → SameUse net p q
    → Allocates net q (q', none)
    → SameUse net p q'
none_taken net p q _ u (exhausted h) = u

module _ (crate : IpNetworkCrate) (net : Net) where
  pub exchange-pool :
      (rd : Readings) (e : RegisteredEdge) (id : ℕ) (w : World)
      → pool_of (exchange crate net rd e id w).1 ≡ pool_of w
  unfolding exchange
  exchange-pool rd e id w =
      send_net_setup-pool crate net rd.client_msg_id rd.client_reply e.client.0
        (some (server_name e)) id e.server.0 (e.client_docker, e.server_docker) e.backend_entry_port
        _
      ∙ send_net_setup-pool crate net rd.server_msg_id rd.server_reply e.server.0 none id e.client.0
          (e.client_docker, e.server_docker) none w.orchestrator

  -- Against the pool before the task: the pool is as it was, or will be when the task gives its
  -- identifier back, or the task has succeeded and keeps it.
  abbrev Owes : NetIdPool → EdgeTask × World → Type 0
  Owes p (starting e, w) = SameUse net p (pool_of w)
  Owes p (reserved e, w) = SameUse net p (pool_of w)
  Owes p (numbered e n, w) = SameUse net p (free net n (pool_of w))
  Owes p (answered e n s c, w) = SameUse net p (free net n (pool_of w))
  Owes p (orphaned e n, w) = SameUse net p (free net n (pool_of w))
  Owes p (releasing e, w) = SameUse net p (pool_of w)
  Owes p (finished failed, w) = SameUse net p (pool_of w)
  Owes p (finished (success x), w) = Unit {0}

  reserve-Owes :
      (p : NetIdPool) (now : ℕ) (e : RegisteredEdge) (w : World)
      → SameUse net p (pool_of w)
      → Owes p (reserve now e w)
  unfolding reserve
  reserve-Owes p now e w u = elim (Option-cases (get_registered (server_name e) w.services)) [
    | inl absent ↦ rw (absent, reserve) u
    | inr (reg, found) ↦
        rw (found, reserve)
          (elim (Bool-cases (already_setup e reg)) [
            | inl reused ↦ rw reused tt
            | inr new ↦ rw new u
          ])
  ]

  obtain_id-Owes :
      (p : NetIdPool) (e : RegisteredEdge) (w : World)
      → SameUse net p (pool_of w)
      → Owes p (obtain_id net e w)
  unfolding obtain_id
  obtain_id-Owes p e w u =
      let a = allocate-Allocates net (pool_of w) u.0 in
      elim (Option-cases (allocate net (pool_of w)).1) [
        | inl full ↦
            rw (full, obtain_id)
              (none_taken net p (pool_of w) (allocate net (pool_of w)).0 u
                (subst (λ o. Allocates net (pool_of w) ((allocate net (pool_of w)).0, o)) full a))
        | inr (n, got) ↦
            rw (got, obtain_id)
              (SameUse-trans net p (pool_of w) _ u (
                taken_and_freed net (pool_of w) (allocate net (pool_of w)).0 n
                  (subst (λ o. Allocates net (pool_of w) ((allocate net (pool_of w)).0, o)) got a)))
      ]

  tear_down-pool :
      (e : RegisteredEdge) (n : ℕ) (w : World)
      → pool_of (tear_down net e n w) ≡ free net n (pool_of w)
  tear_down-pool e n w =
      send_net_teardown-pool net e.client.0 e.client_docker e.server.0 e.server_docker n
        w.orchestrator

  commit-Owes :
      (p : NetIdPool) (rd : Readings) (e : RegisteredEdge) (n : ℕ) (s c : Option Ipv4Addr)
      (w : World)
      → SameUse net p (free net n (pool_of w))
      → Owes p (commit net rd e n s c w)
  unfolding commit
  commit-Owes p rd e n none c w u = rw (tear_down-pool e n w) u
  commit-Owes p rd e n (some s) none w u = rw (tear_down-pool e n w) u
  commit-Owes p rd e n (some s) (some c) w u =
      elim (Option-cases (get_registered (server_name e) w.services)) [
        | inl gone ↦ rw (gone, commit) u
        | inr (reg, found) ↦ rw (found, commit) tt
      ]

  step_task-Owes :
      (p : NetIdPool) (rd : Readings) (t : EdgeTask) (w : World)
      → Owes p (t, w)
      → Owes p (step_task crate net rd t w)
  unfolding step_task
  step_task-Owes p rd (starting e) w u = reserve-Owes p rd.now e w u
  step_task-Owes p rd (reserved e) w u = obtain_id-Owes p e w u
  step_task-Owes p rd (numbered e n) w u = rw (exchange-pool rd e n w) u
  step_task-Owes p rd (answered e n s c) w u = commit-Owes p rd e n s c w u
  step_task-Owes p rd (orphaned e n) w u = rw (tear_down-pool e n w) u
  step_task-Owes p rd (releasing e) w u = u
  step_task-Owes p rd (finished failed) w u = u
  step_task-Owes p rd (finished (success x)) w u = tt

  -- The turns of a task, each with the services that it finds: other tasks and handlers may have
  -- changed them since the last turn.
  unfoldable pub turns_amid : List (Readings × ServiceMap) → EdgeTask × World → EdgeTask × World
  turns_amid [] s = s
  turns_amid ((rd, services) ∷ turns) (t, w) =
      turns_amid turns (step_task crate net rd t (record w { services = services }))

  moved-Owes :
      (p : NetIdPool) (services : ServiceMap) (t : EdgeTask) (w : World)
      → Owes p (t, w)
      → Owes p (t, record w { services = services })
  moved-Owes p services (starting e) w u = u
  moved-Owes p services (reserved e) w u = u
  moved-Owes p services (numbered e n) w u = u
  moved-Owes p services (answered e n s c) w u = u
  moved-Owes p services (orphaned e n) w u = u
  moved-Owes p services (releasing e) w u = u
  moved-Owes p services (finished failed) w u = u
  moved-Owes p services (finished (success x)) w u = tt

  turns_amid-Owes :
      (p : NetIdPool) (turns : List (Readings × ServiceMap)) (t : EdgeTask) (w : World)
      → Owes p (t, w)
      → Owes p (turns_amid turns (t, w))
  unfolding turns_amid
  turns_amid-Owes p [] t w u = u
  turns_amid-Owes p ((rd, services) ∷ turns) t w u =
      let s = step_task crate net rd t (record w { services = services }) in
      turns_amid-Owes p turns s.0 s.1
        (step_task-Owes p rd t (record w { services = services }) (moved-Owes p services t w u))

  -- If the task of an edge has failed, however the services changed between its turns, then the pool
  -- is valid and has the same identifiers in use as before the task: whether the service was not
  -- registered at the start, no identifier was left, an answer was missing, or the service was gone
  -- when the link was to be registered.
  pub failed_setup-SameUse :
      (turns : List (Readings × ServiceMap)) (e : RegisteredEdge) (w : World)
      → IsValid net (pool_of w)
      → (turns_amid turns (starting e, w)).0 ≡ finished failed
      → SameUse net (pool_of w) (pool_of (turns_amid turns (starting e, w)).1)
  failed_setup-SameUse turns e w v fails =
      subst (λ t. Owes (pool_of w) (t, (turns_amid turns (starting e, w)).1)) fails
        (turns_amid-Owes (pool_of w) turns (starting e) w (v, λ j. refl))
