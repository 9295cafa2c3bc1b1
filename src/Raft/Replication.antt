-- ===== src/Raft/Replication.antt =====
-- src/raft/raft.cc: the leader's side, `doHeartBeat`, `handleAppendEntries`, `advanceCommitIndex`.
use kvcache_raft.Common.{
  ℕ, zero, suc, ◌+◌, ◌-◌, List, [], ◌∷◌, Option, none, some, Bool, not, ltb, leb, ◌==◌,
  if◌then◌else◌, set, get_elem?, length, drop, Outcome, ok, ◌>>=◌, ◌>>◌, assert, in_bounds, min,
  max,
}
use kvcache_raft.Proto.{LogEntry, AppendEntriesArgs, AppendEntriesReply}
use kvcache_raft.Raft.Types.{is_leader, RaftState, get_last_log_index, log_at, get_prev_log_info}
use kvcache_raft.Raft.Election.{other_peers, majority, step_down}

-- The peers but `me` that hold the log up to `index`: the inner loop of `advanceCommitIndex`.
unfoldable pub count_others : ℕ → ℕ → ℕ → List ℕ → ℕ
count_others me index i [] = 0
count_others me index i (m ∷ ms) =
    let rest = count_others me index (i + 1) ms in
    if i == me then rest else if leb index m then rest + 1 else rest

-- A majority holds the log up to `index`; the node counts itself.
unfoldable pub is_replicated : RaftState → ℕ → Bool
is_replicated s index = leb (majority s.peers) (count_others s.id index 0 s.match_index + 1)

-- The loop of `advanceCommitIndex`, from `index` down: the new commit index.
unfoldable pub advance_from : RaftState → ℕ → Outcome ℕ
advance_from s zero = ok s.commit_index
advance_from s (suc k) =
    let rest = advance_from s k in
    let found =
      log_at s (suc k) >>= λ e. if e.log_term == s.current_term then ok (suc k) else rest in
    if leb (suc k) s.commit_index
    then ok s.commit_index
    else if is_replicated s (suc k)
    then found
    else rest

-- `advanceCommitIndex`
unfoldable pub advance_commit_index : RaftState → Outcome RaftState
advance_commit_index s = advance_from s (min (get_last_log_index s) s.stable_log_index) >>= λ index.
    ok (record s { commit_index = index })

-- A follower has taken the entries of `args`.
unfoldable pub record_match : ℕ → AppendEntriesArgs → RaftState → Outcome RaftState
record_match server args s = in_bounds (get_elem? s.match_index server) >>= λ old.
    let new = max old (args.prev_log_index + length args.entries) in
    let t = record s {
      match_index = set s.match_index server new;
      next_index = set s.next_index server (new + 1);
    } in
    assert (leb (new + 1) (get_last_log_index t + 1)) >> ok t

-- A follower has refused the entries, with the index to go on from.
abbrev pub retreat : ℕ → Option ℕ → RaftState → RaftState
retreat server none s = s
retreat server (some hint) s = record s { next_index = set s.next_index server hint }

-- `handleAppendEntries`: the state and the count of successes of the heartbeat. Unlike the
-- other handlers it does not save a later term.
unfoldable pub handle_append_entries :
    ℕ → AppendEntriesArgs → AppendEntriesReply → Bool → RaftState → ℕ → Outcome (RaftState × ℕ)
handle_append_entries server args reply reached s append_num =
    if not reached
    then ok (s, append_num)
    else if ltb s.current_term reply.term
    then ok (step_down reply.term s, append_num)
    else if ltb reply.term s.current_term
    then ok (s, append_num)
    else if not (is_leader s.identity)
    then ok (s, append_num)
    else if not reply.success
    then ok (retreat server reply.update_next_index s, append_num)
    else (record_match server args s >>= λ t.
        advance_commit_index t >>= λ u. ok (u, append_num + 1))

-- The entries from the front of `logs` up to the first above `stable`.
unfoldable pub up_to : ℕ → List LogEntry → List LogEntry
up_to stable [] = []
up_to stable (e ∷ es) = if ltb stable e.log_index then [] else e ∷ up_to stable es

-- What the leader sends to one peer.
pub data Dispatch : Type 0 where
  send_append : ℕ → AppendEntriesArgs → Dispatch
  send_snapshot : ℕ → Dispatch

-- The entries after `prev`.
unfoldable pub entries_after : RaftState → ℕ → Outcome (List LogEntry)
entries_after s prev =
    if prev == s.last_snapshot_index
    then ok (up_to s.stable_log_index s.logs)
    else (assert (ltb s.last_snapshot_index prev)
        >> ok (up_to s.stable_log_index (drop (prev - s.last_snapshot_index) s.logs)))

-- One round of the loop of `doHeartBeat`. The request keeps the `prevlogindex` that was read
-- before the peer's `m_nextIndex` is cut to the stable part of the log.
unfoldable pub heartbeat_to : ℕ → RaftState → Outcome (RaftState × Dispatch)
heartbeat_to i s = do
  next ← in_bounds (get_elem? s.next_index i)
  assert (leb 1 next)
  if leb next s.last_snapshot_index then ok (s, send_snapshot i) else do
    prev ← get_prev_log_info s i
    let t =
        if ltb s.stable_log_index prev.0
        then record s { next_index = set s.next_index i (s.stable_log_index + 1) }
        else s
    start ← if ltb s.stable_log_index prev.0 then get_prev_log_info t i else ok prev
    entries ← entries_after t start.0
    assert (prev.0 + length entries == s.stable_log_index)
    ok (
      t,
      send_append i (record {
        term = s.current_term;
        leader_id = s.id;
        prev_log_index = prev.0;
        prev_log_term = prev.1;
        entries = entries;
        leader_commit = s.commit_index;
      }),
    )

unfoldable pub heartbeat_all : List ℕ → RaftState → Outcome (RaftState × List Dispatch)
heartbeat_all [] s = ok (s, [])
heartbeat_all (i ∷ is) s = do
  here ← heartbeat_to i s
  later ← heartbeat_all is here.0
  ok (later.0, here.1 ∷ later.1)

-- `doHeartBeat`
unfoldable pub do_heartbeat : ℕ → RaftState → Outcome (RaftState × List Dispatch)
do_heartbeat now s = if not (is_leader s.identity) then ok (s, []) else do
  sent ← heartbeat_all (other_peers s.id 0 s.peers) s
  ok (record (sent.0) { last_heartbeat_time = now }, sent.1)
