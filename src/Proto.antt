-- ===== src/Proto.antt =====
-- proto/raftRPC.proto and include/common/ApplyMsg.h: the messages of a Raft node. The int32 fields
-- are natural numbers; the sentinel values are written out: `none` for the -100 of
-- `UpdateNextIndex` and for the -1 of an `ApplyMsg` index.
use kvcache_raft.Common.{ℕ, String, List, Option, Bool}

pub record LogEntry : Type 0 where
  pub command : String
  pub log_term : ℕ
  pub log_index : ℕ

pub record AppendEntriesArgs : Type 0 where
  pub term : ℕ
  pub leader_id : ℕ
  pub prev_log_index : ℕ
  pub prev_log_term : ℕ
  pub entries : List LogEntry
  pub leader_commit : ℕ

-- `update_next_index` is `none` for -100.
pub record AppendEntriesReply : Type 0 where
  pub term : ℕ
  pub success : Bool
  pub update_next_index : Option ℕ

pub record RequestVoteArgs : Type 0 where
  pub term : ℕ
  pub candidate_id : ℕ
  pub last_log_index : ℕ
  pub last_log_term : ℕ

-- `raft::Vote`
pub data Vote : Type 0 where
  voted normal killed expired : Vote

pub record RequestVoteReply : Type 0 where
  pub term : ℕ
  pub vote_granted : Bool
  pub vote_state : Vote

pub record InstallSnapshotRequest : Type 0 where
  pub leader_id : ℕ
  pub term : ℕ
  pub last_snapshot_include_index : ℕ
  pub last_snapshot_include_term : ℕ
  pub snapshot_data : String

pub record InstallSnapshotResponse : Type 0 where
  pub term : ℕ

-- What the node pushes to the key-value server.
pub record ApplyMsg : Type 0 where
  pub command_valid : Bool
  pub command : String
  pub command_index : Option ℕ
  pub snapshot_valid : Bool
  pub snapshot : String
  pub snapshot_term : Option ℕ
  pub snapshot_index : Option ℕ
