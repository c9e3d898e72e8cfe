-- ===== src/Protocol.antt =====
-- lib/protocol: DNS messages and their wire format.
pub mod Header
pub mod Question
pub mod Record
pub mod Packet
