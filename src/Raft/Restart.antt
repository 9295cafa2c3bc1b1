-- ===== src/Raft/Restart.antt =====
-- A node that starts again, from what Persister has kept of it.
pub mod Replay
pub mod Init
