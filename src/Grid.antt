-- ===== src/Grid.antt =====
-- src/grid: the terminal emulator.
pub mod Parser
