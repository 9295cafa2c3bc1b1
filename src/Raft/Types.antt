-- ===== src/Raft/Types.antt =====
-- include/raft/raft.h: the state of a node.
use kvcache_raft.Common.{
  ℕ, ◌+◌, ◌-◌, List, Option, none, some, Bool, leb, ◌==◌, if◌then◌else◌, get_elem?, last, Outcome,
  ok, fault, out_of_bounds, in_bounds, ◌>>=◌,
}
use kvcache_raft.Proto.{LogEntry, ApplyMsg}
use kvcache_raft.Persister.{Persister}

-- `raft::Identity`
pub data Identity : Type 0 where
  follower leader candidate : Identity

abbrev pub is_leader : Identity → Bool
is_leader leader = Bool.true
is_leader _ = Bool.false

abbrev pub is_candidate : Identity → Bool
is_candidate candidate = Bool.true
is_candidate _ = Bool.false

-- The fields of `raft`. `m_voteForId` is `none` for -1; `m_peers` is its size; the caches
-- `m_lastLogIndex` and `m_lastLogTerm` are written before each read and left out; the
-- condition variables and the lock carry no data. The queue to the server is oldest first.
pub record RaftState : Type 0 where
  pub id : ℕ
  pub peers : ℕ
  pub logs : List LogEntry
  pub commit_index : ℕ
  pub stable_log_index : ℕ
  pub last_snapshot_index : ℕ
  pub last_snapshot_term : ℕ
  pub next_index : List ℕ
  pub match_index : List ℕ
  pub identity : Identity
  pub current_term : ℕ
  pub vote_for_id : Option ℕ
  pub last_election_time : ℕ
  pub last_heartbeat_time : ℕ
  pub replicate_pending : Bool
  pub last_applied : ℕ
  pub apply_chan : List ApplyMsg
  pub persister : Persister

-- `getLastLogIndex`
unfoldable pub get_last_log_index : RaftState → ℕ
get_last_log_index s = elim (last s.logs) [ none ↦ s.last_snapshot_index | some e ↦ e.log_index ]

-- `getLastLogTerm`
unfoldable pub get_last_log_term : RaftState → ℕ
get_last_log_term s = elim (last s.logs) [ none ↦ s.last_snapshot_term | some e ↦ e.log_term ]

-- `m_logs[index - m_lastSnapshotIndex - 1]`: at or below the snapshot the offset is negative.
unfoldable pub log_at : RaftState → ℕ → Outcome LogEntry
log_at s index =
    if leb index s.last_snapshot_index
    then fault out_of_bounds
    else in_bounds (get_elem? s.logs (index - s.last_snapshot_index - 1))

-- The term of the entry at `index`, which may be the last one in the snapshot.
unfoldable pub term_at : RaftState → ℕ → Outcome ℕ
term_at s index =
    if index == s.last_snapshot_index
    then ok s.last_snapshot_term
    else log_at s index >>= λ e. ok e.log_term

-- `getPrevLogInfo`
unfoldable pub get_prev_log_info : RaftState → ℕ → Outcome (ℕ × ℕ)
get_prev_log_info s server = in_bounds (get_elem? s.next_index server) >>= λ next.
    if next == s.last_snapshot_index + 1
    then ok (s.last_snapshot_index, s.last_snapshot_term)
    else log_at s (next - 1) >>= λ e. ok (next - 1, e.log_term)
