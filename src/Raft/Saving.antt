-- ===== src/Raft/Saving.antt =====
-- src/raft/raft.cc, `persistState`, and the reading of the same file in `init`.
use kvcache_raft.Common.{
  ℕ, zero, suc, ◌-◌, ◌%◌, ◌^◌, List, [], ◌∷◌, Option, none, some, false, ◌==◌, ltb, if◌then◌else◌,
  length,
}
use kvcache_raft.Persister.{Persister, NodeInfo, save_raft_state}
use kvcache_raft.Persister.Replay.{replay}
use kvcache_raft.Raft.Types.{Identity, follower, leader, candidate, RaftState, get_last_log_index}

abbrev pub u32 : ℕ → ℕ
u32 n = n % 2 ^ 32

-- An Identity stored in a uint32.
abbrev pub role_code : Identity → ℕ
role_code follower = 0
role_code leader = 1
role_code candidate = 2

-- -1 as a uint32 is 2^32 - 1.
abbrev pub vote_code : Option ℕ → ℕ
vote_code none = 2 ^ 32 - 1
vote_code (some c) = u32 c

-- The int that a stored vote is read back as: 2^32 - 1 is -1.
abbrev pub read_vote : ℕ → Option ℕ
read_vote w = if w == 2 ^ 32 - 1 then none else some w

abbrev pub node_info_of : RaftState → NodeInfo
node_info_of s = record {
  node_id = u32 s.id;
  role = role_code s.identity;
  commit_index = u32 s.commit_index;
  last_applied = u32 s.last_applied;
  log_len = u32 (length s.logs);
  term = u32 s.current_term;
  snapshot_index = u32 s.last_snapshot_index;
  snapshot_term = u32 s.last_snapshot_term;
  voted_for = vote_code s.vote_for_id;
  writed_index = 2 ^ 32 - 1;
}

abbrev pub saved : RaftState → Persister
saved s = save_raft_state (record (s.persister) { node_info = node_info_of s })

-- `persistState`
unfoldable pub persist_state : RaftState → RaftState
persist_state s = record s { persister = saved s }

-- The initial `m_nextIndex` and `m_matchIndex`.
unfoldable pub zeros : ℕ → List ℕ
zeros zero = []
zeros (suc n) = 0 ∷ zeros n

-- `init`: the fields are reset, then filled from the file and the write-ahead log.
unfoldable pub init : ℕ → ℕ → ℕ → Persister → RaftState
init me peers now p = record loaded {
  stable_log_index = get_last_log_index loaded;
  last_applied = if ltb 0 info.snapshot_index then info.snapshot_index else 0;
}
  where
    info : NodeInfo
    info = p.node_info

    loaded : RaftState
    loaded = record {
      id = me;
      peers = peers;
      logs = replay info.snapshot_index p.wal;
      commit_index = info.commit_index;
      stable_log_index = 0;
      last_snapshot_index = info.snapshot_index;
      last_snapshot_term = info.snapshot_term;
      next_index = zeros peers;
      match_index = zeros peers;
      identity = follower;
      current_term = info.term;
      vote_for_id = read_vote info.voted_for;
      last_election_time = now;
      last_heartbeat_time = now;
      replicate_pending = false;
      last_applied = 0;
      apply_chan = [];
      persister = p;
    }
