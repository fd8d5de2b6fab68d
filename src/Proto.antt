-- ===== src/Proto.antt =====
-- crates/proto/src/lib.rs: the wire protocol's fields, messages and frames.
pub mod Outcome
pub mod Cursor
pub mod Laws
pub mod Field
pub mod Text
pub mod Values
pub mod Forwarded
pub mod FromClient
pub mod Frame
pub mod Tests
