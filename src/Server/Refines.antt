-- ===== src/Server/Refines.antt =====
-- The handlers as runs of the transition system (src/nullnet_grpc_impl.rs, src/orchestrator.rs).
pub mod Chains
pub mod Proxy
pub mod Triggers
pub mod Updates
pub mod Watching
pub mod Handlers
use nullnet_grpc.Base.{ℕ, ◌≡◌, refl, Option, none, some, List, [], ◌∷◌, ◌++◌}
use nullnet_grpc.Base.Results.{Result, ◌>>=◌}
use nullnet_grpc.Proto.{Net}
use nullnet_grpc.Net.{IpNetworkCrate}
use nullnet_grpc.Changes.{World}
use nullnet_grpc.GrpcImpl.{SharedNetwork}
use nullnet_grpc.GrpcImpl.EdgeTask.{EdgeTask}
use nullnet_grpc.Server.{Server, Step, Reachable, here, next}

module _ (crate : IpNetworkCrate) (net : Net) where
  pub Reachable-trans :
      {s t u : Server} → Reachable crate net s t → Reachable crate net t u → Reachable crate net s u
  Reachable-trans r here = r
  Reachable-trans r (next q step) = next (Reachable-trans r q) step

  -- The server reaches the world, whatever tasks and offers it then has.
  abbrev pub Leads : Server → World → Type 0
  Leads s w =
      (tasks : List EdgeTask) × (offers : List SharedNetwork) × Reachable crate net s
        (record { world = w; tasks = tasks; offers = offers })

  -- The world that a run of a handler ends with, if the run ends, is one that the server reaches.
  abbrev pub Refines {ℓ} : {A : Type ℓ} → Server → Option (World × A) → Type 0
  Refines s none = Unit {0}
  Refines s (some (w, a)) = Leads s w

  pub Refines-map {ℓ κ} :
      {A : Type ℓ} {B : Type κ} (s : Server) (m : Option (World × A)) (f : World × A → World × B)
      → ((x : World × A) → (f x).0 ≡ x.0)
      → Refines s m
      → Refines s (m >>= λ x. some (f x))
  Refines-map s none f same r = tt
  Refines-map s (some x) f same r = rw (same x) r
