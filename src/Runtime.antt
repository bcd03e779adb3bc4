-- ===== src/Runtime.antt =====
-- internal/runtime/runner.go and internal/cmd/health.go: processes, volume images and health probes.
pub mod Process
pub mod Stopping
pub mod Poll
pub mod Polled
pub mod Volume
mod Tests
