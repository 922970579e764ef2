-- ===== src/Client.antt =====
-- src/client: the client's end of a terminal.
pub mod Escape
