-- ===== src/Persister/Replay.antt =====
-- src/persist/Persister.cc, `ReadPersistedLogs` and the same loop in `CompactWal`.
use kvcache_raft.Common.{
  ℕ, ◌+◌, ◌-◌, List, [], ◌∷◌, ◌++◌, none, some, ltb, leb, ◌==◌, if◌then◌else◌, length, take, last,
}
use kvcache_raft.Proto.{LogEntry}

-- `ReadWalSegment` keeps the records above the snapshot.
unfoldable pub read_wal : ℕ → List LogEntry → List LogEntry
read_wal snapshot_index [] = []
read_wal snapshot_index (e ∷ es) =
    let rest = read_wal snapshot_index es in
    if ltb snapshot_index e.log_index then e ∷ rest else rest

-- One round of the loop: a record may extend the log or replace its tail.
unfoldable pub replay_entry : ℕ → List LogEntry → LogEntry → List LogEntry
replay_entry snapshot_index logs e =
    if leb e.log_index snapshot_index then logs else elim (last logs) [
      | none ↦ if e.log_index == snapshot_index + 1 then e ∷ [] else logs
      | some back ↦
          if e.log_index == back.log_index + 1
          then logs ++ e ∷ []
          else if leb e.log_index back.log_index
          then (let vec_index = e.log_index - snapshot_index - 1 in
              if ltb vec_index (length logs) then take vec_index logs ++ e ∷ [] else logs)
          else logs
    ]

unfoldable pub replay_from : ℕ → List LogEntry → List LogEntry → List LogEntry
replay_from snapshot_index logs [] = logs
replay_from snapshot_index logs (e ∷ es) =
    replay_from snapshot_index (replay_entry snapshot_index logs e) es

-- `ReadPersistedLogs`
unfoldable pub replay : ℕ → List LogEntry → List LogEntry
replay snapshot_index wal = replay_from snapshot_index [] (read_wal snapshot_index wal)
