-- ===== src/Hostnet.antt =====
-- internal/hostnet, internal/netutil and internal/lockfile: addresses, MACs and device names.
pub mod Prefix
pub mod Names
pub mod Plan
pub mod Stable
pub mod Permanent
mod Tests
