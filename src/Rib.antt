-- ===== src/Rib.antt =====
-- fogrs-core/src/rib.rs: the routing information base and its handler.
pub mod Handler
pub mod Published
pub mod Waiting
pub mod Pending
pub mod Answered
