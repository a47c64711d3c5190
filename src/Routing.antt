-- ===== src/Routing.antt =====
-- fogrs-core/src/routing_manager.rs: how the two sides of a topic find each other over the signaling
-- server and register their connections with the forwarding table.
pub mod Direction
pub mod Case
pub mod Duality
pub mod Manager
pub mod Streams
pub mod Ends
pub mod Rendezvous
pub mod Feeds
pub mod Register
pub mod Registration
pub mod Registered
pub mod Opened
pub mod Answering
pub mod Probes
pub mod Probed
pub mod Exchange
