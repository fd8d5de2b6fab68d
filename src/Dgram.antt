-- ===== src/Dgram.antt =====
-- crates/dgram: the connection under a session, a datagram at a time.
pub mod Packet
pub mod Mtu
pub mod Rtt
pub mod Loss
pub mod Congestion
pub mod Window
pub mod Path
pub mod Keys
