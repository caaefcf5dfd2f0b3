-- ===== src/Api.antt =====
-- apps/rc-api/src: the services of the API.
pub mod Redis
pub mod Bounds
pub mod Hw
pub mod Access
pub mod Auth
pub mod Sync
pub mod Devices
pub mod Fleet
pub mod Sessions
