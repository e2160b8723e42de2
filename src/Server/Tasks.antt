-- ===== src/Server/Tasks.antt =====
-- The identifiers under the steps of one setup task (src/nullnet_grpc_impl.rs).
use nullnet_grpc.Base.{
  ℕ, ◌<◌, ◌≤◌, refl, sym, Option, none, some, List, [], ◌∷◌, All, inl, inr, Option-cases,
  Bool-cases, string_eq, Ipv4Addr, arith, subst,
}
use nullnet_grpc.Proto.{Net}
use nullnet_grpc.NetIdPool.{allocate}
use nullnet_grpc.NetIdPool.Invariant.{allocate-next_fresh}
use nullnet_grpc.Net.{IpNetworkCrate}
use nullnet_grpc.Clients.{placeholder, new_info}
use nullnet_grpc.Edge.{RegisteredEdge}
use nullnet_grpc.ServiceInfo.{Replica, replicas, ServiceMap, add_chain, remove_client}
use nullnet_grpc.ServiceInfo.Sound.{
  Below, add_chain-Sound, add_client_to_replica-Sound, remove_client-Sound,
}
use nullnet_grpc.Changes.{World, get_registered}
use nullnet_grpc.Changes.Kept.Sound.{
  SoundMap, SoundPool, SoundWorld, registered-Sound, put_registered-Sound, update_registered-Sound,
  teardown-SoundPool,
}
use nullnet_grpc.GrpcImpl.EdgeTask.{
  EdgeTask, starting, reserved, numbered, answered, orphaned, releasing, finished, Readings,
  reserve, obtain_id, exchange, commit, tear_down, register_link, step_task, already_setup,
  server_name,
}
use nullnet_grpc.GrpcImpl.Rollback.{pool_of, exchange-pool}

-- The identifier that a task holds is below the bound.
abbrev pub TaskBelow : ℕ → EdgeTask → Type 0
TaskBelow n (starting e) = Unit {0}
TaskBelow n (reserved e) = Unit {0}
TaskBelow n (numbered e id) = id < n
TaskBelow n (answered e id s c) = id < n
TaskBelow n (orphaned e id) = id < n
TaskBelow n (releasing e) = Unit {0}
TaskBelow n (finished o) = Unit {0}

module _ {ℓ} {A : Type ℓ} where
  pub All-map {κ ι} :
      (P : A → Type κ) (Q : A → Type ι) (xs : List A) → ((x : A) → P x → Q x) → All P xs → All Q xs
  All-map P Q [] h a = tt
  All-map P Q (x ∷ xs) h a = (h x a.0, All-map P Q xs h a.1)

-- A larger bound holds as well.
pub Below-weaken : (m n : ℕ) (rs : List Replica) → m ≤ n → All (Below m) rs → All (Below n) rs
Below-weaken m n rs h a =
    All-map (Below m) (Below n) rs
      (λ r b. All-map _ _ r.clients.clients (λ e low. omega (arith, h, low)) b) a

pub SoundMap-weaken :
    (m n : ℕ) (services : ServiceMap) → m ≤ n → SoundMap m services → SoundMap n services
SoundMap-weaken m n services h s =
    All-map _ _ services (λ e k. (k.0, Below-weaken m n (replicas e.1) h k.1)) s

pub TaskBelow-weaken : (m n : ℕ) (t : EdgeTask) → m ≤ n → TaskBelow m t → TaskBelow n t
TaskBelow-weaken m n (starting e) h b = tt
TaskBelow-weaken m n (reserved e) h b = tt
TaskBelow-weaken m n (numbered e id) h b = omega (arith, h, b)
TaskBelow-weaken m n (answered e id s c) h b = omega (arith, h, b)
TaskBelow-weaken m n (orphaned e id) h b = omega (arith, h, b)
TaskBelow-weaken m n (releasing e) h b = tt
TaskBelow-weaken m n (finished o) h b = tt

-- A task and a world that are sound for a bound that is at least `n`.
abbrev pub Grown : Net → ℕ → EdgeTask × World → Type 0
Grown net n (t, w) = (m : ℕ) × (n ≤ m) × SoundWorld net m w × TaskBelow m t

module _ (crate : IpNetworkCrate) (net : Net) (n : ℕ) where
  reserve-Grown :
      (now : ℕ) (e : RegisteredEdge) (w : World)
      → SoundWorld net n w
      → Grown net n (reserve now e w)
  unfolding reserve
  reserve-Grown now e w s = elim (Option-cases (get_registered (server_name e) w.services)) [
    | inl gone ↦ rw (gone, reserve) (n, omega arith, s, tt)
    | inr (reg, there) ↦
        let r = registered-Sound n (server_name e) w.services reg there s.0 in
        rw (there, reserve)
          (elim (Bool-cases (already_setup e reg)) [
            | inl again ↦ rw again (
              n,
              omega arith,
              (
                put_registered-Sound n (server_name e) (add_chain now e.client.1 reg) w.services
                    (add_chain-Sound n e.client.1 reg r now) s.0,
                s.1,
              ),
              tt,
            )
            | inr first ↦ rw first (
              n,
              omega arith,
              (
                put_registered-Sound n (server_name e) _ w.services
                    (add_client_to_replica-Sound n e.client.1 reg r e.server.0 e.server_docker
                      (placeholder now e.client.0) (omega (arith, s.1.0.low, s.1.1)))
                    s.0,
                s.1,
              ),
              tt,
            )
          ])
  ]

  obtain_id-Grown :
      (e : RegisteredEdge) (w : World) → SoundWorld net n w → Grown net n (obtain_id net e w)
  unfolding obtain_id
  obtain_id-Grown e w s =
      let p = pool_of w in
      let (grows, valid, low) = allocate-next_fresh net p s.1.0 in
      let m = (allocate net p).0.next_fresh in
      let sound : SoundMap m w.services =
        SoundMap-weaken n m w.services (omega (arith, grows, s.1.1)) s.0 in
      elim (Option-cases (allocate net p).1) [
        | inl full ↦
            rw (full, obtain_id) (m, omega (arith, grows, s.1.1), (sound, (valid, refl)), tt)
        | inr (id, got) ↦
            rw (got, obtain_id) (m, omega (arith, grows, s.1.1), (sound, (valid, refl)), low id got)
      ]

  tear_down-Sound :
      (e : RegisteredEdge) (id : ℕ) (w : World)
      → id < n
      → SoundWorld net n w
      → SoundWorld net n (tear_down net e id w)
  tear_down-Sound e id w low s = (
    s.0,
    teardown-SoundPool net n e.client.0 e.client_docker e.server.0 e.server_docker id w.orchestrator
        low s.1,
  )

  commit-Grown :
      (rd : Readings) (e : RegisteredEdge) (id : ℕ) (a c : Option Ipv4Addr) (w : World)
      → id < n
      → SoundWorld net n w
      → Grown net n (commit net rd e id a c w)
  unfolding commit
  commit-Grown rd e id none c w low s = (n, omega arith, tear_down-Sound e id w low s, tt)
  commit-Grown rd e id (some a) none w low s = (n, omega arith, tear_down-Sound e id w low s, tt)
  commit-Grown rd e id (some a) (some c) w low s =
      elim (Option-cases (get_registered (server_name e) w.services)) [
        | inl gone ↦ rw (gone, commit) (n, omega arith, s, low)
        | inr (reg, there) ↦
            let r = registered-Sound n (server_name e) w.services reg there s.0 in
            let ci = new_info rd.now e.client.0 c a id rd.time_ms e.client_docker in
            let placed =
              add_client_to_replica-Sound n e.client.1 reg r e.server.0 e.server_docker ci low in
            rw (there, commit)
              (
                n,
                omega arith,
                (
                  put_registered-Sound n (server_name e) (register_link net rd e id a c reg)
                      w.services (add_chain-Sound n e.client.1 _ placed rd.now) s.0,
                  s.1,
                ),
                tt,
              )
      ]

  -- Each step of a task in a sound world leads to a sound world and a task whose identifier is below
  -- the bound, which does not shrink.
  pub step_task-Grown :
      (rd : Readings) (t : EdgeTask) (w : World)
      → SoundWorld net n w
      → TaskBelow n t
      → Grown net n (step_task crate net rd t w)
  unfolding step_task exchange
  step_task-Grown rd (starting e) w s b = reserve-Grown rd.now e w s
  step_task-Grown rd (reserved e) w s b = obtain_id-Grown e w s
  step_task-Grown rd (numbered e id) w s b = (
    n,
    omega arith,
    (s.0, subst (SoundPool net n) (sym (exchange-pool crate net rd e id w)) s.1),
    b,
  )
  step_task-Grown rd (answered e id a c) w s b = commit-Grown rd e id a c w b s
  step_task-Grown rd (orphaned e id) w s b = (n, omega arith, tear_down-Sound e id w b s, tt)
  step_task-Grown rd (releasing e) w s b = (
    n,
    omega arith,
    (
      update_registered-Sound n (server_name e) (remove_client e.client.1) w.services
          (λ reg r. remove_client-Sound n e.client.1 reg r) s.0,
      s.1,
    ),
    tt,
  )
  step_task-Grown rd (finished o) w s b = (n, omega arith, s, tt)
