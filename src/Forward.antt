-- ===== src/Forward.antt =====
-- crates/forward: per-stream retransmission for forwarded TCP connections.
pub mod Wire
pub mod Piece
pub mod Recv
pub mod Timer
pub mod Send
pub mod Stream
pub mod Link
