-- ===== src/Server/Reach.antt =====
-- The states that the server reaches (src/nullnet_grpc_impl.rs).
use nullnet_grpc.Base.{
  ℕ, zero, suc, ◌<◌, ◌≤◌, refl, sym, Option, none, some, List, [], ◌∷◌, map, All, All-append, arith,
  string_eq, subst,
}
use nullnet_grpc.Base.HashMap.{get}
use nullnet_grpc.Proto.{Net}
use nullnet_grpc.NetIdPool
use nullnet_grpc.NetIdPool.Invariant.{new-IsValid}
use nullnet_grpc.Net.{IpNetworkCrate}
use nullnet_grpc.Orchestrator
use nullnet_grpc.ServiceInfo.{ServiceMap, set_latest_now}
use nullnet_grpc.ServiceInfo.Sound.{set_latest_now-Sound}
use nullnet_grpc.ServiceInfo.Soundness.{OwnedBelow}
use nullnet_grpc.Changes.{World}
use nullnet_grpc.Changes.Kept.{Result, decrement_edges-kept}
use nullnet_grpc.Changes.Kept.Whole.{apply_changes-kept}
use nullnet_grpc.Changes.Kept.Sound.{
  SoundMap, SoundWorld, SoundLoaded, update_registered-Sound, world-Kept, update_loaded-Sound,
}
use nullnet_grpc.GrpcImpl.{EdgeOutcome, Readings, step_at, SharedNetwork, decide_proxy}
use nullnet_grpc.GrpcImpl.EdgeTask.{EdgeTask, starting}
use nullnet_grpc.Server.{
  Server, Step, spawn, task, settle, keep, decide, act, change, join, connect, acknowledge,
  disconnect, Reachable, here, next, new,
}
use nullnet_grpc.Server.Tasks.{
  TaskBelow, All-map, SoundMap-weaken, TaskBelow-weaken, step_task-Grown,
}
use nullnet_grpc.Server.Sound.{
  SoundServer, get_elem-All, starting_below, add_replicas-Sound, ActionBelow, decide_service_below,
  share_network-Sound,
}

-- A server that is sound for a bound of at least `n`.
abbrev pub GrownServer : Net → ℕ → Server → Type 0
GrownServer net n s = (m : ℕ) × (n ≤ m) × SoundServer net m s

SoundLoaded-weaken :
    (net : Net) (m n : ℕ) (loaded : Option ServiceMap)
    → m ≤ n
    → SoundLoaded net m loaded
    → SoundLoaded net n loaded
SoundLoaded-weaken net m n none h l = tt
SoundLoaded-weaken net m n (some loaded) h l = SoundMap-weaken m n loaded h l

module _ (crate : IpNetworkCrate) (net : Net) where
  step_at-Grown :
      (n i : ℕ) (rd : Readings) (ts : List EdgeTask) (w : World) (os : List EdgeOutcome)
      → SoundWorld net n w
      → All (TaskBelow n) ts
      → (m : ℕ) × (n ≤ m)
        × SoundWorld net m (step_at crate net i rd ts w os).1
        × All (TaskBelow m) (step_at crate net i rd ts w os).0
  unfolding step_at
  step_at-Grown n i rd [] w os s a = (n, omega arith, s, tt)
  step_at-Grown n zero rd (t ∷ ts) w os s a =
      let (m, grows, s', b) = step_task-Grown crate net n rd t w s a.0 in
      (
        m,
        grows,
        s',
        (b, All-map (TaskBelow n) (TaskBelow m) ts (λ x. TaskBelow-weaken n m x grows) a.1),
      )
  step_at-Grown n (suc i) rd (t ∷ ts) w os s a =
      let (m, grows, s', b) = step_at-Grown n i rd ts w os s a.1 in
      (m, grows, s', (TaskBelow-weaken n m t grows a.0, b))

  Step-Grown :
      (n : ℕ) {s t : Server} → Step crate net s t → SoundServer net n s → GrownServer net n t
  unfolding decide_proxy
  Step-Grown n {s} (spawn chain) (w, ts, os) = (
    n,
    omega arith,
    (w, All-append (TaskBelow n) s.tasks (map starting chain) ts (starting_below n chain), os),
  )
  Step-Grown n {s} (task i rd) (w, ts, os) =
      let (m, grows, w', ts') = step_at-Grown n i rd s.tasks s.world [] w ts in
      (
        m,
        grows,
        (
          w',
          ts',
          All-map (λ (o : SharedNetwork). o.net_id < n) (λ (o : SharedNetwork). o.net_id < m)
              s.offers (λ o low. omega (arith, low, grows)) os,
        ),
      )
  Step-Grown n {s} (settle edges) (w, ts, os) = (
    n,
    omega arith,
    (
      decrement_edges-kept net (SoundWorld net n) (OwnedBelow n) (world-Kept net n) edges s.world w,
      ts,
      os,
    ),
  )
  Step-Grown n {s} (keep now name client) (w, ts, os) = (
    n,
    omega arith,
    (
      (
        update_registered-Sound n name (set_latest_now now client) s.world.services
            (λ reg r. set_latest_now-Sound n client reg r now) w.0,
        w.1,
      ),
      ts,
      os,
    ),
  )
  Step-Grown n {s} (decide name proxy_ip client_ip o e) (w, ts, os) = (
    n,
    omega arith,
    (
      w,
      ts,
      (
        subst (ActionBelow n) e (
            decide_service_below n proxy_ip _ name s.world.services (get name s.world.services) refl
              w.0),
        os,
      ),
    ),
  )
  Step-Grown n {s} (act fuel now i name proxy_ip client o w' found e) (w, ts, os) = (
    n,
    omega arith,
    (
      subst (Result (SoundWorld net n)) e (
          share_network-Sound net n fuel now name proxy_ip client o s.world
            (get_elem-All (λ (x : SharedNetwork). x.net_id < n) s.offers i o found os) w),
      ts,
      os,
    ),
  )
  Step-Grown n {s} (change fuel changes loaded w' l e) (w, ts, os) =
      let l' = SoundLoaded-weaken net 101 n loaded (omega (arith, w.1.0.low, w.1.1)) l in
      (
        n,
        omega arith,
        (
          subst (Result (SoundWorld net n)) e (
              apply_changes-kept net (SoundWorld net n) (OwnedBelow n) (world-Kept net n) fuel
                changes loaded s.world (λ v. update_loaded-Sound net n loaded v l') w),
          ts,
          os,
        ),
      )
  Step-Grown n {s} (join ip listed) (w, ts, os) =
      (n, omega arith, ((add_replicas-Sound n ip listed s.world.services w.0, w.1), ts, os))
  Step-Grown n (connect ip outbound) (w, ts, os) = (n, omega arith, (w, ts, os))
  Step-Grown n (acknowledge msg_id) (w, ts, os) = (n, omega arith, (w, ts, os))
  Step-Grown n (disconnect ip) (w, ts, os) = (n, omega arith, (w, ts, os))

  pub Reachable-Grown :
      {s t : Server} (n : ℕ) → Reachable crate net s t → SoundServer net n s → GrownServer net n t
  Reachable-Grown n here h = (n, omega arith, h)
  Reachable-Grown n (next r step) h =
      let (m, grows, sound) = Reachable-Grown n r h in
      let (k, grows', sound') = Step-Grown m step sound in (k, omega (arith, grows, grows'), sound')

  -- The server after its start is sound.
  new-Sound : (loaded : ServiceMap) → SoundMap 101 loaded → SoundServer net 101 (new loaded)
  unfolding new Orchestrator.new NetIdPool.new
  new-Sound loaded l = ((l, (new-IsValid net, refl)), tt, tt)

  -- Whatever the interleaving of requests, setup tasks, teardowns, timeouts and updates: from a start
  -- with sound services, in every state that the server reaches each registered service has a
  -- replica and no two with the same identity, the pool is valid, and the identifiers of client
  -- entries, tasks and offered networks lie below the pool's next fresh one.
  pub Reachable-Sound :
      (loaded : ServiceMap) (s : Server)
      → SoundMap 101 loaded
      → Reachable crate net (new loaded) s
      → SoundServer net s.world.orchestrator.net_id_pool.next_fresh s
  Reachable-Sound loaded s l r =
      let (m, grows, sound) = Reachable-Grown 101 r (new-Sound loaded l) in
      subst (λ k. SoundServer net k s) (sym sound.0.1.1) sound
