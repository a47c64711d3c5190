-- ===== src/Packet.antt =====
-- fogrs-common/src/packet_structs.rs: names, actions, packets, their headers and constructors.
-- Bytes and lengths are native numbers; a `[u8; 4]` is a record of its four bytes.
pub mod Action
pub mod Name
pub mod Hex
pub mod Spelling
pub mod Printing
pub mod Types
pub mod Header
pub mod Construct
