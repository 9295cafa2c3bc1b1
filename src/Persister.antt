-- ===== src/Persister.antt =====
-- include/persist/Persister.h and src/persist/Persister.cc: what a node keeps on disk. The
-- write-ahead log is the list of the valid records of its segment files, in the order of
-- `ListSegments`; the node info is the mapped file behind `fmp`.
pub mod Replay
use kvcache_raft.Common.{ℕ, String, List, ◌++◌, ltb, if◌then◌else◌}
use kvcache_raft.Proto.{LogEntry}
use Replay.{replay}

-- `NodeSnapshot`: uint32 fields; `pid`, `ip` and `port` are left out.
pub record NodeInfo : Type 0 where
  pub node_id : ℕ
  pub role : ℕ
  pub commit_index : ℕ
  pub last_applied : ℕ
  pub log_len : ℕ
  pub term : ℕ
  pub snapshot_index : ℕ
  pub snapshot_term : ℕ
  pub voted_for : ℕ
  pub writed_index : ℕ

pub record Persister : Type 0 where
  pub node_info : NodeInfo
  pub snapshot : String
  pub wal : List LogEntry
  pub compacted_snapshot_index : ℕ

-- `CompactWal`: the surviving records are written to a fresh log (`RewriteWalFrom`).
unfoldable pub compact_wal : ℕ → Persister → Persister
compact_wal snapshot_index p = record p {
  wal = replay snapshot_index p.wal;
  compacted_snapshot_index = snapshot_index;
}

-- `SaveRaftState`, that is `Save(&m_nodeInfoSnapshot, nullptr, nullptr)`.
unfoldable pub save_raft_state : Persister → Persister
save_raft_state p =
    if ltb p.compacted_snapshot_index p.node_info.snapshot_index
    then compact_wal p.node_info.snapshot_index p
    else p

-- `Save(nullptr, nullptr, &snapshot)`: the temporary file is renamed over the snapshot.
unfoldable pub save_snapshot : String → Persister → Persister
save_snapshot text p = record p { snapshot = text }

-- The writer thread puts the records of a batch behind the log.
unfoldable pub append_wal : List LogEntry → Persister → Persister
append_wal logs p = record p { wal = p.wal ++ logs }
