-- ===== src/App.antt =====
-- src/app: what the agent and the client share.
pub mod ByteQueue
