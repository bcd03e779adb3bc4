-- ===== src/Commands.antt =====
-- internal/cmd/up.go and internal/cmd/down.go, with resolvePlan of internal/cmd/lifecycle.go.
pub mod World
pub mod Down
pub mod Shares
pub mod Up
pub mod Started
pub mod Ordered
pub mod Kept
pub mod DownKept
pub mod DownFailed
pub mod Rounds
pub mod Downed
pub mod Resolved
mod Tests
