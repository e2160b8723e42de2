-- ===== src/GrpcImpl/Progress.antt =====
-- How many turns the tasks of a chain setup need (src/nullnet_grpc_impl.rs).
use nullnet_grpc.Base.{
  ℕ, zero, suc, ◌+◌, ◌-◌, ◌≤◌, ◌<◌, ◌≡◌, refl, true, Option, none, some, List, [], ◌∷◌, map, all,
  is_some, length, nat_beq, ltb, if◌then◌else◌, inl, inr, Bool-cases, Option-cases, arith, Ipv4Addr,
}
use nullnet_grpc.Proto.{Net}
use nullnet_grpc.Net.{IpNetworkCrate}
use nullnet_grpc.Orchestrator.{allocate_net_id}
use nullnet_grpc.Edge.{RegisteredEdge}
use nullnet_grpc.Changes.{World, get_registered}
use nullnet_grpc.GrpcImpl.EdgeTask.{
  EdgeOutcome, EdgeTask, starting, reserved, numbered, answered, orphaned, releasing, finished,
  Readings, step_task, reserve, obtain_id, exchange, commit, already_setup, server_name,
}
use nullnet_grpc.GrpcImpl.ChainSetup.{System, is_finished, step_at, run_schedule, net_chain_setup}

-- How many turns a task needs at most.
abbrev pub turns_left : EdgeTask → ℕ
turns_left (starting e) = 5
turns_left (reserved e) = 4
turns_left (numbered e n) = 3
turns_left (answered e n s c) = 2
turns_left (orphaned e n) = 1
turns_left (releasing e) = 1
turns_left (finished o) = 0

-- How often a schedule gives task `i` a turn.
abbrev pub turns : ℕ → List (ℕ × Readings) → ℕ
turns i [] = 0
turns i ((j, rd) ∷ sched) = (if nat_beq j i then 1 else 0) + turns i sched

left_at : ℕ → List EdgeTask → ℕ
left_at i [] = 0
left_at zero (t ∷ ts) = turns_left t
left_at (suc i) (t ∷ ts) = left_at i ts

reserve_turns : (now : ℕ) (e : RegisteredEdge) (w : World) → turns_left (reserve now e w).0 ≤ 4
unfolding reserve
reserve_turns now e w = elim (Option-cases (get_registered (server_name e) w.services)) [
  | inl gone ↦ rw (gone, turns_left) (omega arith)
  | inr (reg, there) ↦
      rw (there, turns_left)
        (elim (Bool-cases (already_setup e reg)) [
          | inl again ↦ rw (again, turns_left) (omega arith)
          | inr first ↦ rw (first, turns_left) (omega arith)
        ])
]

module _ (crate : IpNetworkCrate) (net : Net) where
  obtain_turns : (e : RegisteredEdge) (w : World) → turns_left (obtain_id net e w).0 ≤ 3
  unfolding obtain_id
  obtain_turns e w = elim (Option-cases (allocate_net_id net w.orchestrator).1) [
    | inl full ↦ rw (full, turns_left) (omega arith)
    | inr (id, got) ↦ rw (got, turns_left) (omega arith)
  ]

  commit_turns :
      (rd : Readings) (e : RegisteredEdge) (id : ℕ) (s c : Option Ipv4Addr) (w : World)
      → turns_left (commit net rd e id s c w).0 ≤ 1
  unfolding commit
  commit_turns rd e id none c w = omega arith
  commit_turns rd e id (some s) none w = omega arith
  commit_turns rd e id (some s) (some c) w =
      elim (Option-cases (get_registered (server_name e) w.services)) [
        | inl gone ↦ rw (gone, turns_left) (omega arith)
        | inr (reg, there) ↦ rw (there, turns_left) (omega arith)
      ]

  step_task_turns :
      (rd : Readings) (t : EdgeTask) (w : World)
      → turns_left (step_task crate net rd t w).0 ≤ turns_left t - 1
  unfolding step_task exchange
  step_task_turns rd (starting e) w = omega (arith, reserve_turns rd.now e w)
  step_task_turns rd (reserved e) w = omega (arith, obtain_turns e w)
  step_task_turns rd (numbered e n) w = omega arith
  step_task_turns rd (answered e n s c) w = omega (arith, commit_turns rd e n s c w)
  step_task_turns rd (orphaned e n) w = omega arith
  step_task_turns rd (releasing e) w = omega arith
  step_task_turns rd (finished o) w = omega arith

  step_at_turns :
      (i j : ℕ) (rd : Readings) (ts : List EdgeTask) (w : World) (os : List EdgeOutcome)
      → left_at j (step_at crate net i rd ts w os).0 ≤ left_at j ts - (if nat_beq i j then 1 else 0)
  unfolding step_at left_at
  step_at_turns i j rd [] w os = omega arith
  step_at_turns zero zero rd (t ∷ ts) w os = step_task_turns rd t w
  step_at_turns zero (suc j) rd (t ∷ ts) w os = ground arith
  step_at_turns (suc i) zero rd (t ∷ ts) w os = ground arith
  step_at_turns (suc i) (suc j) rd (t ∷ ts) w os = ground (arith, step_at_turns i j rd ts w os)

  none_left : (ts : List EdgeTask) → ((i : ℕ) → left_at i ts ≤ 0) → all is_finished ts ≡ true
  unfolding left_at
  none_left [] h = refl
  none_left (finished o ∷ ts) h = none_left ts (λ i. h (suc i))
  none_left (starting e ∷ ts) h = absurd (omega (arith, h 0))
  none_left (reserved e ∷ ts) h = absurd (omega (arith, h 0))
  none_left (numbered e n ∷ ts) h = absurd (omega (arith, h 0))
  none_left (answered e n s c ∷ ts) h = absurd (omega (arith, h 0))
  none_left (orphaned e n ∷ ts) h = absurd (omega (arith, h 0))
  none_left (releasing e ∷ ts) h = absurd (omega (arith, h 0))

  schedule_finishes :
      (sched : List (ℕ × Readings)) (s : System)
      → ((i : ℕ) → left_at i s.tasks ≤ turns i sched)
      → all is_finished (run_schedule crate net sched s).tasks ≡ true
  unfolding run_schedule
  schedule_finishes [] s h = none_left s.tasks h
  schedule_finishes ((j, rd) ∷ sched) s h =
      schedule_finishes sched _
        (λ i. omega (arith, h i, step_at_turns j i rd s.tasks s.world s.outcomes))

  left_at-start :
      (i : ℕ) (chain : List RegisteredEdge)
      → left_at i (map starting chain) ≤ (if ltb i (length chain) then 5 else 0)
  unfolding left_at
  left_at-start i [] = ground arith
  left_at-start zero (e ∷ chain) = ground arith
  left_at-start (suc i) (e ∷ chain) = ground (arith, left_at-start i chain)

  -- If the schedule gives each edge of the chain five turns, whatever other turns it gives and
  -- whatever the nodes answer, the setup of the chain ends with a result.
  pub net_chain_setup_ends :
      (sched : List (ℕ × Readings)) (chain : List RegisteredEdge) (w : World)
      → ((i : ℕ) → i < length chain → 5 ≤ turns i sched)
      → is_some (net_chain_setup crate net sched chain w) ≡ true
  unfolding net_chain_setup
  net_chain_setup_ends sched chain w fair =
      rw
        (schedule_finishes sched (record { world = w; tasks = map starting chain; outcomes = [] })
          (λ i. ground (arith, left_at-start i chain, fair i)))
        refl
