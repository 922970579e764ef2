-- ===== src/Wire.antt =====
-- src/wire: frames and messages.
pub mod Limits
pub mod Types
pub mod Messages
pub mod Parse
pub mod Write
pub mod RoundTrip
pub mod Frame
pub mod FrameStream
pub mod SealedFrame
pub mod KeySchedule
pub mod Hello
