-- ===== src/Raft/Terms/Defs.antt =====
-- The rule on terms and votes, and the local steps of a node: the handlers of src/raft/raft.cc.
use kvcache_raft.Common.{ℕ, ◌≤◌, ◌≡◌, String, List, Bool, true, some, ok}
use kvcache_raft.Proto.{
  AppendEntriesArgs, AppendEntriesReply, RequestVoteArgs, InstallSnapshotRequest,
  InstallSnapshotResponse, ApplyMsg,
}
use kvcache_raft.Raft.Types.{RaftState, is_leader}
use kvcache_raft.Raft.Saving.{persist_state}
use kvcache_raft.Raft.Election.{request_vote}
use kvcache_raft.Raft.Append.{PendingWrite, replied, waiting, begin_append, finish_append}
use kvcache_raft.Raft.Replication.{handle_append_entries, do_heartbeat, Dispatch}
use kvcache_raft.Raft.Snapshots.{leader_send_snapshot_handler, install_snapshot, snapshot_upto}
use kvcache_raft.Raft.Commands.{start, on_log_stable, take_committed, push_msgs}

-- The term never falls, and a vote stands as long as the term does.
pub record KeepsVote (s t : RaftState) : Type 0 where
  pub same_id : t.id ≡ s.id
  pub same_peers : t.peers ≡ s.peers
  pub term_grows : s.current_term ≤ t.current_term
  pub vote_kept :
      t.current_term ≡ s.current_term → (c : ℕ) → s.vote_for_id ≡ some c → t.vote_for_id ≡ some c

-- Moreover nobody becomes leader, and a leader of a later term is none.
pub record KeepsOrder (s t : RaftState) : Type 0 where
  pub votes : KeepsVote s t
  pub leads :
      is_leader t.identity ≡ true
      → (is_leader s.identity ≡ true) × (t.current_term ≡ s.current_term)

-- The steps of a node that start no election and count no vote, on any message at all: the two
-- parts of `AppendEntries` are steps of their own, and so is the applier's push. A request for a
-- vote that is delivered once more, its reply dropped, is one too.
pub data LocalStep (s : RaftState) : RaftState → Type 0 where
  append_refused :
      (now : ℕ) (request : AppendEntriesArgs) {t : RaftState} {reply : AppendEntriesReply}
      → begin_append now request s ≡ ok (replied t reply)
      → LocalStep s t
  append_waits :
      (now : ℕ) (request : AppendEntriesArgs) {t : RaftState} {writes : List PendingWrite}
      → begin_append now request s ≡ ok (waiting t writes)
      → LocalStep s t
  append_ends :
      (request : AppendEntriesArgs) (writes : List PendingWrite) (stable : Bool) {t : RaftState}
      {reply : AppendEntriesReply}
      → finish_append request writes stable s ≡ ok (t, reply)
      → LocalStep s t
  append_replied :
      (server : ℕ) (args : AppendEntriesArgs) (reply : AppendEntriesReply) (reached : Bool)
      (count : ℕ) {t : RaftState} {count' : ℕ}
      → handle_append_entries server args reply reached s count ≡ ok (t, count')
      → LocalStep s t
  beats :
      (now : ℕ) {t : RaftState} {sent : List Dispatch}
      → do_heartbeat now s ≡ ok (t, sent)
      → LocalStep s t
  repeated : (now : ℕ) (request : RequestVoteArgs) → LocalStep s (request_vote now request s).0
  installs :
      (now : ℕ) (args : InstallSnapshotRequest) {t : RaftState} {reply : InstallSnapshotResponse}
      → install_snapshot now args s ≡ ok (t, reply)
      → LocalStep s t
  snapshot_replied :
      (now : ℕ) (reached : Bool) (args : InstallSnapshotRequest) (reply : InstallSnapshotResponse)
      (i : ℕ)
      → LocalStep s (leader_send_snapshot_handler now reached args reply i s).0
  compacts :
      (index : ℕ) (text : String) {t : RaftState}
      → snapshot_upto index text s ≡ ok t
      → LocalStep s t
  starts : (command : String) → LocalStep s (start command s).0
  writes_end : (written : Bool) (index : ℕ) → LocalStep s (on_log_stable written index s)
  takes : {t : RaftState} {msgs : List ApplyMsg} → take_committed s ≡ ok (t, msgs) → LocalStep s t
  pushes : (msgs : List ApplyMsg) → LocalStep s (push_msgs msgs s)
  saves : LocalStep s (persist_state s)
