-- ===== src/Wnet.antt =====
-- internal/wnet: the domain model that every backend speaks, the interface `Backend`, and the
-- wrapper that hides excluded interfaces.
pub mod Types
pub mod Backend
pub mod Exclude
pub mod Local
pub mod Nmcli
pub mod Iwd
pub mod Ubus
pub mod Nmdbus
mod Tests
