-- ===== src/Shared.antt =====
-- packages/shared/src: the pure logic that the four processes share.
pub mod Types
pub mod Topics
pub mod Ttl
pub mod Keys
pub mod Live
pub mod Hash
pub mod Semver
pub mod Readiness
pub mod Dashboard
pub mod Rollout
pub mod Json
pub mod Hw
pub mod Conn
