-- ===== src/Provisiond.antt =====
-- internal/provisiond: the root daemon that owns the host's bridges, taps and firewall rules.
pub mod Specs
pub mod Expr
pub mod Nft
pub mod Fingerprints
pub mod Rules
pub mod Links
pub mod Firewall
pub mod Growing
pub mod Applied
pub mod Within
pub mod Cleared
pub mod Method
pub mod Protocol
pub mod Client
pub mod Remote
pub mod Ula
pub mod Taps
mod Tests
