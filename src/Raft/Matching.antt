-- ===== src/Raft/Matching.antt =====
-- `AppendEntries` of src/raft/raft.cc and the entries of the log.
pub mod Merge
pub mod Carried
pub mod Accept
