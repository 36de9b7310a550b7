-- ===== src/Wnet/Nmdbus.antt =====
-- internal/wnet/nmdbus: the backend for NetworkManager over D-Bus, its conversions and settings.
pub mod Convert
pub mod Variants
pub mod Settings
pub mod Patching
mod Tests
