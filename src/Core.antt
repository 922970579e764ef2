-- ===== src/Core.antt =====
-- src/core: what every layer of the program builds on.
pub mod Time
pub mod Error
pub mod Reader
pub mod Writer
pub mod ShellQuote
