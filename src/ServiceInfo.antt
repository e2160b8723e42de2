-- ===== src/ServiceInfo.antt =====
-- src/services/service_info.rs: a service of the configuration, its replicas and their clients. `Defs`
-- has the types; the other private children have the operations on them.
mod Defs
mod Queries
mod Updates
mod Chain
pub mod Upstreams
pub mod Invariant
pub mod Sticky
pub mod Sound
pub mod Soundness
pub mod Shared
pub mod Slots
pub mod Membership
pub use Defs.*
unfoldable pub use Queries.*
unfoldable pub use Updates.*
unfoldable pub use Chain.*
