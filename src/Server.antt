-- ===== src/Server.antt =====
-- internal/server: the gRPC services over a backend, and the cache of scan results.
pub mod Messages
pub mod Convert
pub mod Interfaces
pub mod Profiles
pub mod Connections
pub mod ScanCache
pub mod AccessPoints
pub mod Codes
pub mod Secrets
pub mod Watching
mod Tests
