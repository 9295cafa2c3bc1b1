-- ===== src/Raft/Terms.antt =====
-- Terms and votes: `m_currentTerm`, `m_voteForId` and the leadership of a node of src/raft/raft.cc.
pub mod Defs
pub mod Appends
pub mod Handlers
pub mod Voting
pub use Defs.*
