-- ===== src/Signaling.antt =====
-- fogrs-signaling/src/lib.rs: the server at which the two sides of a topic exchange their addresses.
pub mod Server
pub mod Wire
pub mod Fresh
pub mod Stale
pub mod Broadcast
pub mod Streamed
