-- ===== src/Cluster.antt =====
-- A cluster of nodes and the vote requests between them: the calls that `doElection` hands to the
-- thread pool (`sendRequestVote` of src/raft/raft.cc). All else that a node receives is arbitrary.
pub mod Invariant
pub mod Steps
pub mod Kept
pub mod Launch
pub mod Safety
pub mod Defs
