-- ===== src/Tests/Node.antt =====
-- A node of three whose log is above a snapshot, and what its handlers do with it.
use kvcache_raft.Common.{
  ℕ, ◌≡◌, refl, List, [], ◌∷◌, true, false, none, arith, ok, Returns, ReturnsOrExits, String, map,
  ◌<◌, min,
}
use kvcache_raft.Proto.{
  LogEntry, AppendEntriesArgs, RequestVoteArgs, RequestVoteReply, normal, InstallSnapshotRequest,
}
use kvcache_raft.Persister.{Persister}
use kvcache_raft.Raft.Types.{
  Identity, follower, leader, candidate, RaftState, get_last_log_index, log_at, term_at,
}
use kvcache_raft.Raft.Saving.{persist_state}
use kvcache_raft.Raft.Election.{request_vote, handle_request_vote_response}
use kvcache_raft.Raft.Append.{
  PendingWrite, overwrite, begin_append, waiting, finish_append, accept, apply_writes, apply_write,
  follow, match_prev, pending_writes, pending_write, compare_entry,
}
use kvcache_raft.Raft.Replication.{advance_commit_index}
use kvcache_raft.Raft.Snapshots.{snapshot_upto, install_snapshot}
use kvcache_raft.Raft.Commands.{start, on_log_stable, take_committed}
use kvcache_raft.Raft.Terms.{KeepsOrder, append_waits, starts, writes_end}
use kvcache_raft.Raft.Terms.Handlers.{LocalStep-KeepsOrder}
use kvcache_raft.Raft.Terms.Voting.{
  IsVoteFor, Counts, request_vote-granted, handle_request_vote_response-Counts,
}
use kvcache_raft.Raft.Invariant.WellFormed.{IsWellFormed, entries_from}
use kvcache_raft.Raft.Invariant.Appends.{BeginIsWellFormed, begin_append-IsWellFormed}
use kvcache_raft.Raft.Invariant.Writes.{finish_append-IsWellFormed}
use kvcache_raft.Raft.Invariant.Snapshots.{install_snapshot-IsWellFormed}
use kvcache_raft.Raft.Invariant.Compaction.{IsCutAt, snapshot_upto-IsCutAt, snapshot_upto-log_at}
use kvcache_raft.Raft.Invariant.Commands.{msg_of, take_committed-lem}
use kvcache_raft.Raft.Invariant.Commit.{IsAdvance, advance_commit_index-IsAdvance}
use kvcache_raft.Raft.Invariant.Run.{Run-IsWellFormed, here, next, local}
use kvcache_raft.Raft.Matching.Accept.{IsAccepted, append_entries-IsAccepted}

abbrev entry : ℕ → ℕ → String → LogEntry
entry index term text = record { command = text; log_term = term; log_index = index }

abbrev disk : Persister
disk = record {
  node_info = record {
    node_id = 1;
    role = 0;
    commit_index = 3;
    last_applied = 2;
    log_len = 3;
    term = 1;
    snapshot_index = 2;
    snapshot_term = 1;
    voted_for = 0;
    writed_index = 0;
  };
  snapshot = "two keys";
  wal = entry 3 1 "a" ∷ entry 4 1 "b" ∷ entry 5 1 "c" ∷ [];
  compacted_snapshot_index = 2;
}

-- Node 1, with a snapshot up to 2 and the entries 3, 4 and 5, of which 3 is committed.
abbrev node : Identity → List ℕ → RaftState
node role matches = record {
  id = 1;
  peers = 3;
  logs = entry 3 1 "a" ∷ entry 4 1 "b" ∷ entry 5 1 "c" ∷ [];
  commit_index = 3;
  stable_log_index = 5;
  last_snapshot_index = 2;
  last_snapshot_term = 1;
  next_index = 0 ∷ 0 ∷ 0 ∷ [];
  match_index = matches;
  identity = role;
  current_term = 1;
  vote_for_id = none;
  last_election_time = 0;
  last_heartbeat_time = 0;
  replicate_pending = false;
  last_applied = 2;
  apply_chan = [];
  persister = disk;
}

abbrev follows : RaftState
follows = node follower (0 ∷ 0 ∷ 0 ∷ [])

abbrev leads : RaftState
leads = node leader (4 ∷ 0 ∷ 0 ∷ [])

node-IsWellFormed : (role : Identity) (a b c : ℕ) → IsWellFormed (node role (a ∷ b ∷ c ∷ []))
node-IsWellFormed role a b c = record {
  contiguous = (refl, (refl, (refl, tt)));
  snapshot_le_applied = omega arith;
  applied_le_commit = omega arith;
  commit_le_last = omega arith;
  next_size = refl;
  match_size = refl;
}

-- A leader of term 2 replaces entry 4.
abbrev replaces_b : AppendEntriesArgs
replaces_b = record {
  term = 2;
  leader_id = 0;
  prev_log_index = 3;
  prev_log_term = 1;
  entries = entry 4 2 "x" ∷ [];
  leader_commit = 4;
}

abbrev plan : List PendingWrite
plan = overwrite 1 (entry 4 2 "x") ∷ []

waits_for_b : begin_append 9 replaces_b follows ≡ ok (waiting (follow 9 2 follows) plan)
unfolding begin_append follow get_last_log_index match_prev term_at log_at pending_writes
    pending_write compare_entry
waits_for_b = refl

-- Entry 5 of term 1 stays behind entry 4 of term 2.
keeps_c :
    apply_writes 2 (follow 9 2 follows).logs plan
    ≡ ok (entry 3 1 "a" ∷ entry 4 2 "x" ∷ entry 5 1 "c" ∷ [])
unfolding follow apply_writes apply_write
keeps_c = refl

append_entries-IsAccepted_example :
    let f = follow 9 2 follows in
    (logs : List LogEntry) × (apply_writes f.last_snapshot_index f.logs plan ≡ ok logs)
    × (finish_append replaces_b plan true f
        ≡ ok (
          persist_state (accept replaces_b logs f),
          record { term = 2; success = true; update_next_index = none },
        ))
    × IsAccepted replaces_b follows (accept replaces_b logs f)
append_entries-IsAccepted_example =
    append_entries-IsAccepted 9 replaces_b follows (follow 9 2 follows) plan
      (node-IsWellFormed follower 0 0 0) (refl, tt) waits_for_b

begin_append-IsWellFormed_example :
    ReturnsOrExits BeginIsWellFormed (begin_append 9 replaces_b follows)
begin_append-IsWellFormed_example =
    begin_append-IsWellFormed 9 replaces_b follows (node-IsWellFormed follower 0 0 0)

finish_append-IsWellFormed_example :
    Returns (λ r. IsWellFormed r.0) (finish_append replaces_b plan true follows)
finish_append-IsWellFormed_example =
    finish_append-IsWellFormed replaces_b plan true follows (node-IsWellFormed follower 0 0 0)

Run-IsWellFormed_example : IsWellFormed (on_log_stable true 6 (start "d" leads).0)
Run-IsWellFormed_example =
    Run-IsWellFormed (node-IsWellFormed leader 4 0 0)
      (next (next here (local (starts "d"))) (local (writes_end true 6)))

advance_commit_index-IsAdvance_example :
    (c : ℕ) × (advance_commit_index leads ≡ ok (record leads { commit_index = c }))
    × IsAdvance leads (min (get_last_log_index leads) 5) c
advance_commit_index-IsAdvance_example =
    advance_commit_index-IsAdvance leads (node-IsWellFormed leader 4 0 0)

snapshot_upto-IsCutAt_example :
    (e : LogEntry) × (log_at follows 3 ≡ ok e)
    × Returns (IsCutAt 3 e.log_term follows) (snapshot_upto 3 "three keys" follows)
snapshot_upto-IsCutAt_example =
    snapshot_upto-IsCutAt 3 "three keys" follows (node-IsWellFormed follower 0 0 0) (omega arith)
      (omega arith)

snapshot_upto-log_at_example :
    Returns
      (λ u. (i : ℕ) → 3 < i → log_at u i ≡ log_at follows i)
      (snapshot_upto 3 "three keys" follows)
snapshot_upto-log_at_example =
    snapshot_upto-log_at 3 "three keys" follows (node-IsWellFormed follower 0 0 0) (omega arith)
      (omega arith)

abbrev snapshot_at_4 : InstallSnapshotRequest
snapshot_at_4 = record {
  leader_id = 0;
  term = 2;
  last_snapshot_include_index = 4;
  last_snapshot_include_term = 1;
  snapshot_data = "four keys";
}

install_snapshot-IsWellFormed_example :
    Returns (λ r. IsWellFormed r.0) (install_snapshot 9 snapshot_at_4 follows)
install_snapshot-IsWellFormed_example =
    install_snapshot-IsWellFormed 9 snapshot_at_4 follows (node-IsWellFormed follower 0 0 0)

take_committed-lem_example :
    take_committed follows
    ≡ ok (record follows { last_applied = 3 }, map msg_of (entries_from follows 3 1))
take_committed-lem_example = take_committed-lem follows (node-IsWellFormed follower 0 0 0)

LocalStep-KeepsOrder_example : KeepsOrder follows (follow 9 2 follows)
LocalStep-KeepsOrder_example = LocalStep-KeepsOrder (append_waits 9 replaces_b waits_for_b)

abbrev asks : RequestVoteArgs
asks = record { term = 2; candidate_id = 0; last_log_index = 5; last_log_term = 1 }

grants : (request_vote 9 asks follows).1.vote_granted ≡ true
unfolding request_vote kvcache_raft.Raft.Election.decide_vote kvcache_raft.Raft.Election.step_down
    persist_state get_last_log_index kvcache_raft.Raft.Election.is_up_to_date
    kvcache_raft.Raft.Types.get_last_log_term
grants = refl

request_vote-granted_example : IsVoteFor asks (request_vote 9 asks follows).0
request_vote-granted_example = request_vote-granted 9 asks follows grants

abbrev answer : RequestVoteReply
answer = record { term = 1; vote_granted = true; vote_state = normal }

abbrev asks_1 : RequestVoteArgs
asks_1 = record asks { term = 1; candidate_id = 1 }

handle_request_vote_response-Counts_example :
    let x = handle_request_vote_response asks_1 answer true (node candidate (0 ∷ 0 ∷ 0 ∷ [])) 1 in
    Counts asks_1 answer true (node candidate (0 ∷ 0 ∷ 0 ∷ [])) 1 x.0 x.1
handle_request_vote_response-Counts_example =
    handle_request_vote_response-Counts asks_1 answer true (node candidate (0 ∷ 0 ∷ 0 ∷ [])) 1
