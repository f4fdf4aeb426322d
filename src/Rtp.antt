-- ===== src/Rtp.antt =====
-- The reliable transport of lab2 (lab2/src), over UDP datagrams.
pub mod Checksum
pub mod Seq
pub mod Window
pub mod Packet
pub mod Files
pub mod Process
pub mod Sender
pub mod Receiver
pub mod System
mod Tests
