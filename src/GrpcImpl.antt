-- ===== src/GrpcImpl.antt =====
-- src/nullnet_grpc_impl.rs: the handlers of the service.
pub mod EdgeTask
mod ChainSetup
mod Decision
mod Proxy
mod Backend
mod ServicesList
pub mod Channel
mod Methods
pub mod Progress
pub mod Linked
pub mod Session
pub mod Rollback
pub mod SetUp
pub mod Early
pub mod Served
pub mod Refusals
unfoldable pub use EdgeTask.*
unfoldable pub use ChainSetup.*
unfoldable pub use Decision.*
unfoldable pub use Proxy.*
unfoldable pub use Backend.*
unfoldable pub use ServicesList.*
unfoldable pub use Channel.*
unfoldable pub use Methods.*
