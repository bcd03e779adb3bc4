-- ===== src/Purge.antt =====
-- internal/cmd/purge.go and internal/cmd/rm.go: stopping VMs and removing what a stack left behind.
pub mod World
pub mod Sweep
pub mod Swept
pub mod Vms
pub mod Stopped
pub mod Halted
pub mod Unrecorded
pub mod Volumes
pub mod Failed
pub mod Run
mod Tests
