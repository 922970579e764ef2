-- ===== src/Tests.antt =====
-- Runs at concrete inputs.
pub mod Session
pub mod Wire
pub mod Sealed
pub mod Text
pub mod Router
pub mod Grid
pub mod App
