-- ===== src/Changes.antt =====
-- src/services/changes.rs: what changes in the services, and the teardown of the chains that a change
-- breaks. The write lock on the services is held for the whole of `apply_changes`, so each function
-- is one step from a world to a world.
mod Defs
mod Detect
mod Collect
mod Teardown
mod Apply
pub mod Entry
pub mod Walk
pub mod Kept
pub mod After
pub use Defs.*
unfoldable pub use Detect.*
unfoldable pub use Collect.*
unfoldable pub use Teardown.*
unfoldable pub use Apply.*
