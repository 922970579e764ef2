-- ===== src/Session.antt =====
-- src/session: the streams of a session that outlive its connections.
pub mod Error
pub mod Limits
pub mod SendBuffer
pub mod ReceiveCursor
pub mod StreamState
pub mod Link
pub mod Channel
pub mod MuxRouter
