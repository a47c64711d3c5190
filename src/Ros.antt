-- ===== src/Ros.antt =====
-- fogrs-ros/src/lib.rs: the handlers that join ROS topics and services to the forwarding table.
pub mod Types
pub mod Manager
pub mod Names
pub mod Existing
pub mod Channels
pub mod Inboxes
pub mod Subscriptions
pub mod Topics
pub mod Services
pub mod Messages
pub mod Transport
pub mod Calls
pub mod Passing
pub mod RemoteCall
