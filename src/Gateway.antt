-- ===== src/Gateway.antt =====
-- gateway/server.go: the HTTP gateway between the devices and the API server.
pub mod Types
pub mod Env
pub mod Heartbeat
pub mod Auth
pub mod Desired
pub mod Status
pub mod Update
pub mod Sweep
pub mod Handlers
pub mod Tests
