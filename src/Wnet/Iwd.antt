-- ===== src/Wnet/Iwd.antt =====
-- internal/wnet/iwd: the backend for iwd's profiles and D-Bus interface.
pub mod Convert
pub mod Names
pub mod Profile
pub mod Kernel
pub mod Store
pub mod Watching
mod Tests
