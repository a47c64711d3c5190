-- ===== src/Framing.antt =====
-- fogrs-core/src/network/kcp.rs: how packets are cut into frames, a JSON header, a NUL byte and the
-- payload, and how a reader puts them together again from the chunks that the stream hands it.
pub mod Parser
pub mod Fuel
pub mod Frames
pub mod Decode
pub mod Reader
pub mod Incremental
pub mod Stream
pub mod Losses
pub mod Writes
pub mod RoundTrip
pub mod Cuts
pub mod Stands
pub mod Sound
pub mod Writer
pub mod Carried
