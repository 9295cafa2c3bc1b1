-- ===== src/Raft/Snapshots.antt =====
-- src/raft/raft.cc: `leaderSendSnapShot`, its handler, `InstallSnapshot`, `Snapshot`.
use kvcache_raft.Common.{
  ℕ, zero, suc, ◌+◌, ◌-◌, String, List, [], ◌∷◌, ◌++◌, some, none, Bool, true, false, ◌||◌, not,
  ltb, leb, ◌==◌, if◌then◌else◌, set, length, drop, Outcome, ok, fault, out_of_bounds, ◌>>=◌, ◌>>◌,
  assert, max,
}
use kvcache_raft.Proto.{LogEntry, InstallSnapshotRequest, InstallSnapshotResponse, ApplyMsg}
use kvcache_raft.Persister.{save_snapshot}
use kvcache_raft.Raft.Types.{follower, is_leader, RaftState, get_last_log_index, log_at}
use kvcache_raft.Raft.Saving.{persist_state}
use kvcache_raft.Raft.Election.{step_down}

-- `leaderSendSnapShot`: the request.
unfoldable pub leader_send_snapshot : RaftState → InstallSnapshotRequest
leader_send_snapshot s = record {
  leader_id = s.id;
  term = s.current_term;
  last_snapshot_include_index = s.last_snapshot_index;
  last_snapshot_include_term = s.last_snapshot_term;
  snapshot_data = s.persister.snapshot;
}

-- `leaderSendSnapShotHandler`: the state and the result.
unfoldable pub leader_send_snapshot_handler :
    ℕ → Bool → InstallSnapshotRequest → InstallSnapshotResponse → ℕ → RaftState → RaftState × Bool
leader_send_snapshot_handler now reached args reply i s =
    let down = step_down reply.term s in
    let index = args.last_snapshot_include_index in
    if not reached
    then (s, false)
    else if not (is_leader s.identity) || not (s.current_term == args.term)
    then (s, true)
    else if ltb s.current_term reply.term
    then (record (persist_state down) { last_election_time = now }, true)
    else (
      record s {
        match_index = set s.match_index i index;
        next_index = set s.next_index i (index + 1);
      },
      true,
    )

-- The entries above the snapshot's index: `erase` of the prefix, or `clear`.
unfoldable pub cut_prefix : RaftState → ℕ → Outcome (List LogEntry)
cut_prefix s index =
    let count = index - s.last_snapshot_index in
    if ltb index (get_last_log_index s)
    then (if leb count (length s.logs) then ok (drop count s.logs) else fault out_of_bounds)
    else ok []

abbrev pub snapshot_msg : InstallSnapshotRequest → ApplyMsg
snapshot_msg args = record {
  command_valid = false;
  command = "";
  command_index = none;
  snapshot_valid = true;
  snapshot = args.snapshot_data;
  snapshot_term = some args.last_snapshot_include_term;
  snapshot_index = some args.last_snapshot_include_index;
}

-- The fields that a newer snapshot replaces.
unfoldable pub take_snapshot : InstallSnapshotRequest → List LogEntry → RaftState → RaftState
take_snapshot args logs s =
    let index = args.last_snapshot_include_index in
    record s {
      logs = logs;
      commit_index = max s.commit_index index;
      stable_log_index = max s.stable_log_index index;
      last_applied = max s.last_applied index;
      last_snapshot_index = index;
      last_snapshot_term = args.last_snapshot_include_term;
      persister = save_snapshot args.snapshot_data s.persister;
    }

-- The node as a follower of the sender's term, which is not behind its own.
unfoldable pub catch_up : ℕ → ℕ → RaftState → RaftState
catch_up now term s =
    let t = if ltb s.current_term term then persist_state (step_down term s) else s in
    record t { identity = follower; last_election_time = now }

-- `InstallSnapshot`
unfoldable pub install_snapshot :
    ℕ → InstallSnapshotRequest → RaftState → Outcome (RaftState × InstallSnapshotResponse)
install_snapshot now args s =
    let f = catch_up now args.term s in
    if ltb args.term s.current_term
    then ok (s, record { term = s.current_term })
    else if leb args.last_snapshot_include_index f.last_snapshot_index
    then ok (f, record { term = f.current_term })
    else (cut_prefix f args.last_snapshot_include_index >>= λ logs.
        let t = persist_state (take_snapshot args logs f) in
        ok (
          record t { apply_chan = t.apply_chan ++ snapshot_msg args ∷ [] },
          record { term = f.current_term },
        ))

-- The loop of `Snapshot` that copies `count` entries from `index` on.
unfoldable pub copy_entries : RaftState → ℕ → ℕ → Outcome (List LogEntry)
copy_entries s index zero = ok []
copy_entries s index (suc count) = do
  here ← log_at s index
  later ← copy_entries s (index + 1) count
  ok (here ∷ later)

-- `Snapshot`: the server has put everything up to `index` into `text`.
unfoldable pub snapshot_upto : ℕ → String → RaftState → Outcome RaftState
snapshot_upto index text s =
    if leb index s.last_snapshot_index || ltb s.commit_index index then ok s else do
      entry ← log_at s index
      rest ← copy_entries s (index + 1) (get_last_log_index s - index)
      assert (length rest + index == get_last_log_index s)
      ok (
          persist_state (record s {
            logs = rest;
            last_snapshot_index = index;
            last_snapshot_term = entry.log_term;
            commit_index = max s.commit_index index;
            stable_log_index = max s.stable_log_index index;
            last_applied = max s.last_applied index;
            persister = save_snapshot text s.persister;
          }))
