-- ===== src/Raft/Invariant.antt =====
-- The invariant of a node's state, and the handlers of src/raft/raft.cc.
pub mod Contiguous
pub mod WellFormed
pub mod Votes
pub mod Appends
pub mod Writes
pub mod Snapshots
pub mod Commands
pub mod Compaction
pub mod Commit
pub mod Leader
pub mod Run
