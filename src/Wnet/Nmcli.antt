-- ===== src/Wnet/Nmcli.antt =====
-- internal/wnet/nmcli: the backend on top of the command line of NetworkManager.
pub mod Terse
pub mod Host
pub mod Devices
pub mod Scanning
pub mod Saved
pub mod Settings
pub mod Profiles
pub mod Connections
pub mod Watching
pub mod Adapter
mod Tests
