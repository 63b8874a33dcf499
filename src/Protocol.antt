-- ===== src/Protocol.antt =====
-- internal/protocol: frames and their payloads.
pub mod Wire
pub mod Frame
pub mod Payloads
mod Tests
