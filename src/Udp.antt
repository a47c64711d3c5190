-- ===== src/Udp.antt =====
-- fogrs-core/src/network/udp.rs: the transport that puts each part of a packet into a datagram.
pub mod Socket
pub mod Datagrams
pub mod Stun
pub mod Redis
pub mod Registration
pub mod Keys
pub mod Addresses
pub mod Registered
