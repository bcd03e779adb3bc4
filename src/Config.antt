-- ===== src/Config.antt =====
-- internal/config: the compose document, its defaults and its validation.
pub mod Schema
pub mod Defaults
pub mod Filled
pub mod Errors
pub mod Names
pub mod Ports
pub mod Graph
pub mod Parsers
pub mod Validate
pub mod Compose
pub mod Accepted
pub mod Published
mod Tests
