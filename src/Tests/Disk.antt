-- ===== src/Tests/Disk.antt =====
-- Heartbeats, and a restart from what is on disk.
use kvcache_raft.Common.{ℕ, ◌≡◌, refl, [], ◌∷◌, ◌++◌, false, true, some, arith}
use kvcache_raft.Proto.{LogEntry}
use kvcache_raft.Persister.{Persister, compact_wal}
use kvcache_raft.Persister.Replay.{replay, replay_from, replay_entry, read_wal}
use kvcache_raft.Raft.Types.{get_last_log_index, RaftState, leader}
use kvcache_raft.Raft.Saving.{persist_state, init}
use kvcache_raft.Raft.Invariant.WellFormed.{IsWellFormed}
use kvcache_raft.Raft.Commands.{on_log_stable}
use kvcache_raft.Raft.Stable.{IsAhead, IsCutBelow, on_log_stable-failed, on_log_stable-late}
use kvcache_raft.Raft.Restart.Replay.{with_record, replay-append, replay-compact_wal}
use kvcache_raft.Raft.Restart.Init.{FitsDisk, IsRestartOf, init-persist_state, init-IsWellFormed}

abbrev entry : ℕ → ℕ → LogEntry
entry index term = record { command = "a"; log_term = term; log_index = index }

-- Entry 4 is written twice, in terms 1 and 2; entry 5 of term 1 lies between.
abbrev disk : Persister
disk = record {
  node_info = record {
    node_id = 1;
    role = 0;
    commit_index = 3;
    last_applied = 2;
    log_len = 3;
    term = 2;
    snapshot_index = 2;
    snapshot_term = 1;
    voted_for = 0;
    writed_index = 0;
  };
  snapshot = "two keys";
  wal = entry 2 1 ∷ entry 3 1 ∷ entry 4 1 ∷ entry 5 1 ∷ entry 4 2 ∷ [];
  compacted_snapshot_index = 0;
}

reads_4 : replay 2 disk.wal ≡ entry 3 1 ∷ entry 4 2 ∷ []
unfolding replay replay_from replay_entry read_wal
reads_4 = refl

-- Node 0 leads; entry 5 is not stable.
abbrev leads : RaftState
leads = record {
  id = 0;
  peers = 3;
  logs = entry 3 1 ∷ entry 4 1 ∷ entry 5 2 ∷ [];
  commit_index = 3;
  stable_log_index = 4;
  last_snapshot_index = 2;
  last_snapshot_term = 1;
  next_index = 0 ∷ 4 ∷ 6 ∷ [];
  match_index = 0 ∷ 3 ∷ 0 ∷ [];
  identity = leader;
  current_term = 2;
  vote_for_id = some 0;
  last_election_time = 0;
  last_heartbeat_time = 0;
  replicate_pending = false;
  last_applied = 3;
  apply_chan = [];
  persister = disk;
}

leads-IsWellFormed : IsWellFormed leads
leads-IsWellFormed = record {
  contiguous = (refl, (refl, (refl, tt)));
  snapshot_le_applied = omega arith;
  applied_le_commit = omega arith;
  commit_le_last = omega arith;
  next_size = refl;
  match_size = refl;
}

replay-append_example :
    replay 2 (disk.wal ++ entry 5 2 ∷ []) ≡ with_record 2 (replay 2 disk.wal) (entry 5 2)
replay-append_example = replay-append 2 disk.wal (entry 5 2)

replay-compact_wal_example : replay 2 (compact_wal 2 disk).wal ≡ replay 2 disk.wal
replay-compact_wal_example = replay-compact_wal 2 disk

fits : FitsDisk leads
fits = record {
  term = omega arith;
  snapshot_index = omega arith;
  snapshot_term = omega arith;
  commit = omega arith;
  vote = λ c h. let z : 0 ≡ c = cc in omega arith;
}

init-persist_state_example : IsRestartOf leads (init 0 3 9 (persist_state leads).persister)
init-persist_state_example = init-persist_state 3 9 leads fits

init-IsWellFormed_example : IsWellFormed (init 1 3 9 disk)
init-IsWellFormed_example = init-IsWellFormed 1 3 9 disk (omega arith) (rw reads_4 (omega arith))

last_of_leads : get_last_log_index leads ≡ 5
unfolding get_last_log_index
last_of_leads = refl

on_log_stable-failed_example : IsCutBelow 5 leads (on_log_stable false 5 leads)
on_log_stable-failed_example =
    on_log_stable-failed 5 leads leads-IsWellFormed (omega arith) (omega (arith, last_of_leads))

-- The write of the entry at 5 fails, and a write that ends at 7 goes well.
on_log_stable-late_example : IsAhead 5 7 "d" (on_log_stable true 7 (on_log_stable false 5 leads))
on_log_stable-late_example =
    on_log_stable-late 5 7 "d" leads leads-IsWellFormed refl (omega arith) (omega arith)
      (omega (arith, last_of_leads)) (omega arith)
