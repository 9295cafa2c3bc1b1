-- ===== src/Raft/Commands.antt =====
-- src/raft/raft.cc: the way of a command, `Start`, `onLogStable`, `applierTicker`, `copyLogs`.
use kvcache_raft.Common.{
  ℕ, zero, suc, ◌+◌, ◌-◌, String, List, [], ◌∷◌, ◌++◌, Option, some, none, Bool, true, false, ◌&&◌,
  ltb, leb, ◌==◌, if◌then◌else◌, take, get_elem?, Outcome, ok, ◌>>=◌,
}
use kvcache_raft.Proto.{LogEntry, ApplyMsg}
use kvcache_raft.Raft.Types.{RaftState, is_leader, get_last_log_index, log_at}
use kvcache_raft.Raft.Saving.{persist_state}

-- The entry that `Start` appends; `command` is the operation as the text archive writes it.
unfoldable pub new_entry : String → RaftState → LogEntry
new_entry command s = record {
  command = command;
  log_term = s.current_term;
  log_index = get_last_log_index s + 1;
}

-- `Start`: the state, and the entry that is handed to `AppendLogAsync`; `none` if the node is not
-- the leader. The caller learns the entry's index and term.
unfoldable pub start : String → RaftState → RaftState × Option LogEntry
start command s =
    let entry = new_entry command s in
    if is_leader s.identity
    then (persist_state (record s { logs = s.logs ++ entry ∷ [] }), some entry)
    else (s, none)

-- The entry at `index` is in the log, at its place.
unfoldable pub holds_index : RaftState → ℕ → Bool
holds_index s index = elim (get_elem? s.logs (index - s.last_snapshot_index - 1)) [
  | none ↦ false
  | some e ↦ e.log_index == index
]

-- `onLogStable(false, index)`: the entries from `index` on are dropped.
unfoldable pub drop_unstable : ℕ → RaftState → RaftState
drop_unstable index s =
    if ltb s.commit_index index && ltb s.last_snapshot_index index && holds_index s index
    then record s { logs = take (index - s.last_snapshot_index - 1) s.logs }
    else s

-- `onLogStable`
unfoldable pub on_log_stable : Bool → ℕ → RaftState → RaftState
on_log_stable written index s =
    let t =
      if ltb s.stable_log_index index
      then persist_state (record s { stable_log_index = index })
      else s in
    let u =
      if is_leader s.identity && leb index (get_last_log_index s)
      then record t { replicate_pending = true }
      else t in
    if written then u else drop_unstable index s

abbrev pub command_msg : String → ℕ → ApplyMsg
command_msg command index = record {
  command_valid = true;
  command = command;
  command_index = some index;
  snapshot_valid = false;
  snapshot = "";
  snapshot_term = none;
  snapshot_index = none;
}

-- `copyLogs(index, index + count - 1)`
unfoldable pub copy_logs : RaftState → ℕ → ℕ → Outcome (List ApplyMsg)
copy_logs s index zero = ok []
copy_logs s index (suc count) = do
  entry ← log_at s index
  later ← copy_logs s (index + 1) count
  ok (command_msg entry.command index ∷ later)

-- A round of `applierTicker` under the lock: the messages, which are pushed after it.
unfoldable pub take_committed : RaftState → Outcome (RaftState × List ApplyMsg)
take_committed s =
    if ltb s.last_applied s.commit_index
    then (copy_logs s (s.last_applied + 1) (s.commit_index - s.last_applied) >>= λ msgs.
        ok (record s { last_applied = s.commit_index }, msgs))
    else ok (s, [])

-- The loop that pushes them to the server.
unfoldable pub push_msgs : List ApplyMsg → RaftState → RaftState
push_msgs msgs s = record s { apply_chan = s.apply_chan ++ msgs }

-- `GetState`
unfoldable pub get_state : RaftState → ℕ × Bool
get_state s = (s.current_term, is_leader s.identity)
