-- ===== src/Server.antt =====
-- crates/server: the daemon that keeps a session while nobody looks at it.
pub mod Gate
pub mod Backlog
pub mod Mailbox
