-- ===== src/Raft/Heartbeat.antt =====
-- The request that `doHeartBeat` of src/raft/raft.cc makes for one peer.
use kvcache_raft.Raft.Invariant.Contiguous.{Contiguous}
