-- ===== src/Server.antt =====
-- The whole server as a transition system: the world, the setup tasks that run, and the networks
-- that requests have decided to share but not yet shared. Each step is what the code does under one
-- hold of its locks, so that steps of different requests interleave freely
-- (src/nullnet_grpc_impl.rs, src/orchestrator.rs, src/timeout.rs, src/services/input.rs).
pub mod Tasks
pub mod Sound
pub mod Reach
pub mod Start
pub mod Refines
use nullnet_grpc.Base.{
  ℕ, zero, suc, String, ◌≡◌, ◌++◌, Option, none, some, List, [], ◌∷◌, map, IpAddr,
}
use nullnet_grpc.Proto.{Net}
use nullnet_grpc.Net.{IpNetworkCrate}
use nullnet_grpc.Orchestrator
use nullnet_grpc.Orchestrator.{Orchestrator, OutboundStream}
use nullnet_grpc.Clients.{Client, new_client}
use nullnet_grpc.Edge.{RegisteredEdge}
use nullnet_grpc.ServiceInfo.{ServiceMap, set_latest_now}
use nullnet_grpc.Changes.{
  World, DepEdge, ServiceChange, ListedService, update_registered, decrement_edges, apply_changes,
  on_services,
}
use nullnet_grpc.GrpcImpl.{
  EdgeOutcome, Readings, step_at, SharedNetwork, share, share_network, decide_proxy, add_replicas,
}
use nullnet_grpc.GrpcImpl.EdgeTask.{EdgeTask, starting}
use nullnet_grpc.Changes.Kept.Sound.{SoundLoaded}
use nullnet_grpc.Base.Results.{Result, ok, err}
use nullnet_grpc.Input.{ServicesToml}
use nullnet_grpc.Input.Watch.{load}

pub record Server : Type 0 where
  pub world : World
  pub tasks : List EdgeTask
  pub offers : List SharedNetwork

-- The element at a place of a list, if there is one.
abbrev pub get_elem? {ℓ} : {A : Type ℓ} → List A → ℕ → Option A
get_elem? [] i = none
get_elem? (x ∷ xs) zero = some x
get_elem? (x ∷ xs) (suc i) = get_elem? xs i

abbrev pub with_world : World → Server → Server
with_world w s = record s { world = w }

abbrev pub run_task : IpNetworkCrate → Net → ℕ → Readings → Server → Server
run_task crate net i rd s =
    let (tasks', world', outcomes) = step_at crate net i rd s.tasks s.world [] in
    record s { world = world'; tasks = tasks' }

abbrev pub with_orchestrator : Orchestrator → World → World
with_orchestrator o w = record w { orchestrator = o }

module _ (crate : IpNetworkCrate) (net : Net) where
  pub data Step (s : Server) : Server → Type 0 where
    -- A request has built a chain, and spawns a task for each edge.
    spawn :
        (chain : List RegisteredEdge) → Step s (record s { tasks = s.tasks ++ map starting chain })
    -- Some task takes its next step.
    task : (i : ℕ) (rd : Readings) → Step s (run_task crate net i rd s)
    -- A chain with a failed edge counts its other edges down.
    settle : (edges : List DepEdge) → Step s (with_world (decrement_edges net edges s.world) s)
    -- A proxy request keeps its session.
    keep :
        (now : ℕ) (name : String) (client : Client)
        → Step s (
            with_world (on_services (update_registered name (set_latest_now now client)) s.world) s)
    -- A proxy request decides to share a network.
    decide :
        (name : String) (proxy_ip : IpAddr) (client_ip : String) (n : SharedNetwork)
        → decide_proxy name proxy_ip client_ip s.world.services ≡ share n
        → Step s (record s { offers = n ∷ s.offers })
    -- A request that has decided to share a network does so, maybe much later.
    act :
        (fuel now i : ℕ) (name : String) (proxy_ip : IpAddr) (client : Client) (n : SharedNetwork)
        (w : World)
        → get_elem? s.offers i ≡ some n
        → share_network fuel now name proxy_ip client n s.world ≡ some w
        → Step s (with_world w s)
    -- Changes are applied: those of a services list, a lost node, a timeout, or a configuration.
    change :
        (fuel : ℕ) (changes : List ServiceChange) (loaded : Option ServiceMap) (w : World)
        → SoundLoaded net 101 loaded
        → apply_changes net fuel changes loaded s.world ≡ some w
        → Step s (with_world w s)
    -- The services of a node join.
    join :
        (ip : IpAddr) (listed : List ListedService)
        → Step s (with_world (on_services (add_replicas ip listed) s.world) s)
    -- A node opens a channel, or acknowledges a setup, or its channel is removed.
    connect :
        (ip : IpAddr) (outbound : OutboundStream)
        → Step s (
            with_world
              (with_orchestrator (Orchestrator.add_client ip outbound s.world.orchestrator) s.world)
              s)
    acknowledge :
        (msg_id : String)
        → Step s (
            with_world
              (with_orchestrator (Orchestrator.acknowledge msg_id s.world.orchestrator) s.world)
              s)
    disconnect :
        (ip : IpAddr)
        → Step s (
            with_world
              (with_orchestrator (Orchestrator.remove_client ip s.world.orchestrator) s.world)
              s)

  pub data Reachable (s : Server) : Server → Type 0 where
    here : Reachable s s
    next : {t u : Server} → Reachable s t → Step t u → Reachable s u

-- The loaded services, and a new orchestrator.
unfoldable pub new : ServiceMap → Server
new loaded = record {
  world = record { services = loaded; orchestrator = Orchestrator.new };
  tasks = [];
  offers = [];
}

-- `NullnetGrpcImpl::new`: without services there is no server. The tasks that it spawns are steps.
unfoldable pub start : (String → Result String) → (String → Result ServicesToml) → ℕ → Result Server
unfolding load new
start read parse default_timeout = elim (load read parse default_timeout) [
  | err e ↦ err e
  | ok services ↦ ok (new services)
]
