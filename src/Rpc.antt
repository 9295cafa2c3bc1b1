-- ===== src/Rpc.antt =====
-- The framework of remote calls: src/rpc and include/rpc.
pub mod Varint
pub mod Provider
pub mod Frames
pub mod Stream
pub mod RoundTrip
pub mod Socket
pub mod Arrival
pub mod Pending
pub mod Tables
pub mod Answers
