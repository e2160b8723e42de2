-- ===== src/GrpcImpl/ChainSetup.antt =====
-- `net_chain_setup`: the tasks of all edges under any schedule, and what follows when all are done.
use nullnet_grpc.Base.{
  ℕ, zero, suc, ◌++◌, String, Bool, true, false, Option, none, some, List, [], ◌∷◌, map, any, all,
  find_map, if◌then◌else◌, Ipv4Addr,
}
use nullnet_grpc.Base.Results.{Result, ok, err}
use nullnet_grpc.Proto.{Net}
use nullnet_grpc.Net.{IpNetworkCrate}
use nullnet_grpc.Edge.{RegisteredEdge}
use nullnet_grpc.Changes.{World, decrement_edges}
use nullnet_grpc.Clients.{Client}
use nullnet_grpc.GrpcImpl.EdgeTask.{
  SuccessfulEdge, EdgeOutcome, success, failed, EdgeTask, starting, reserved, numbered, answered,
  orphaned, releasing, finished, Readings, step_task,
}

-- The world, the tasks, and the outcomes in the order in which the tasks end.
pub record System : Type 0 where
  pub world : World
  pub tasks : List EdgeTask
  pub outcomes : List EdgeOutcome

abbrev pub outcome_of : EdgeTask → Option EdgeOutcome
outcome_of (finished o) = some o
outcome_of _ = none

abbrev pub is_finished : EdgeTask → Bool
is_finished (finished o) = true
is_finished (starting e) = false
is_finished (reserved e) = false
is_finished (numbered e n) = false
is_finished (answered e n s c) = false
is_finished (orphaned e n) = false
is_finished (releasing e) = false

abbrev pub note_end : EdgeTask → EdgeTask → List EdgeOutcome → List EdgeOutcome
note_end (finished o) after outcomes = outcomes
note_end _ (finished o) outcomes = outcomes ++ o ∷ []
note_end _ _ outcomes = outcomes

module _ (crate : IpNetworkCrate) (net : Net) where
  -- One step of the task with the given index; an index that no task has does nothing.
  unfoldable pub step_at :
      ℕ
      → Readings
      → List EdgeTask
      → World
      → List EdgeOutcome
      → List EdgeTask × World × List EdgeOutcome
  unfolding step_task
  step_at i rd [] w outcomes = ([], w, outcomes)
  step_at zero rd (t ∷ ts) w outcomes =
      let (t', w') = step_task crate net rd t w in (t' ∷ ts, w', note_end t t' outcomes)
  step_at (suc i) rd (t ∷ ts) w outcomes =
      let (ts', w', outcomes') = step_at i rd ts w outcomes in (t ∷ ts', w', outcomes')

  unfoldable pub run_schedule : List (ℕ × Readings) → System → System
  unfolding step_at
  run_schedule [] s = s
  run_schedule ((i, rd) ∷ sched) s =
      let (tasks', world', outcomes') = step_at i rd s.tasks s.world s.outcomes in
      run_schedule sched (record { world = world'; tasks = tasks'; outcomes = outcomes' })

abbrev pub successes : List EdgeOutcome → List SuccessfulEdge
successes [] = []
successes (success s ∷ os) = s ∷ successes os
successes (failed ∷ os) = successes os

abbrev pub is_failure : EdgeOutcome → Bool
is_failure (success s) = false
is_failure failed = true

abbrev pub edge_of : SuccessfulEdge → Client × String
edge_of s = (s.client, s.server_name)

-- What follows the last task: with a failure every edge that was set up counts one chain less.
unfoldable pub settle : Net → List EdgeOutcome → World → World × Result (Option Ipv4Addr)
settle net outcomes w =
    if any is_failure outcomes
    then (decrement_edges net (map edge_of (successes outcomes)) w, err "NET chain setup failed")
    else (w, ok (find_map (λ (s : SuccessfulEdge). s.proxy_upstream) (successes outcomes)))

-- `none` if the schedule ends before all tasks do.
unfoldable pub net_chain_setup :
    IpNetworkCrate
    → Net
    → List (ℕ × Readings)
    → List RegisteredEdge
    → World
    → Option (World × Result (Option Ipv4Addr))
unfolding run_schedule settle
net_chain_setup crate net sched dep_chain w =
    let s =
      run_schedule crate net sched
        (record { world = w; tasks = map starting dep_chain; outcomes = [] }) in
    if all is_finished s.tasks then some (settle net s.outcomes s.world) else none
