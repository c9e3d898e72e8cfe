-- ===== src/Receiver.antt =====
-- lib/receiver: where queries come in.
pub mod Dot
pub mod Doh
