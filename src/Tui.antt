-- ===== src/Tui.antt =====
-- internal/tui: the terminal interface.
pub mod Model
pub mod Triggering
pub mod Scrolling
pub mod Wellformed
pub mod Selecting
pub mod Scans
pub mod Status
mod Tests
