-- ===== src/Raft.antt =====
-- The Raft node: include/raft/raft.h and src/raft/raft.cc.
pub mod Types
pub mod Saving
pub mod Election
pub mod Append
pub mod Replication
pub mod Snapshots
pub mod Commands
pub mod Invariant
pub mod Matching
pub mod Heartbeat
pub mod Stable
pub mod Restart
pub mod Terms
