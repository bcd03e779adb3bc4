-- ===== src/Lifecycle.antt =====
-- internal/cmd/lifecycle.go and its neighbours: what up and down ask the daemon for.
pub mod Stack
pub mod State
pub mod Statuses
pub mod Reconcile
pub mod Identity
pub mod Build
pub mod Built
pub mod Specs
pub mod Devices
pub mod Spared
pub mod Migrated
pub mod Order
pub mod Steps
pub mod Topological
mod Tests
