-- ===== src/Wnet/Ubus.antt =====
-- internal/wnet/ubus: the backend for a remote OpenWrt node, over ubus calls in JSON-RPC.
pub mod Json
pub mod Rpc
pub mod Client
pub mod Convert
pub mod Wireless
pub mod Node
pub mod Interfaces
pub mod Profiles
pub mod Connections
pub mod Watching
pub mod Adapter
pub mod Changes
mod Tests
