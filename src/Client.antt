-- ===== src/Client.antt =====
-- crates/client: the end of the session that the user types at.
pub mod Journal
