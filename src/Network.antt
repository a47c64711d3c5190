-- ===== src/Network.antt =====
-- Two machines of the network: the forwarding tables, the connections of
-- fogrs-core/src/network/kcp.rs between them, and the tasks of fogrs-ros/src/lib.rs at both ends.
pub mod Outgoing
pub mod Published
pub mod Topic
pub mod Requested
pub mod Hop
pub mod Steps
pub mod Call
pub mod Registering
pub mod Opened
