-- ===== src/Tests.antt =====
-- Concrete instances: each theorem with hypotheses is applied where they hold.
mod Pools
mod Networks
mod Services
mod Servers
mod Stale
mod Connections
mod Drawings
mod Runs
mod Walks
mod Afterwards
mod Wires
mod Setups
mod Configured
