-- ===== src/Raft/Append.antt =====
-- src/raft/raft.cc, `AppendEntries`. The handler drops the lock while it waits for the entries to
-- reach the disk, so it is two functions: `begin_append` up to `lock.unlock()`, and
-- `finish_append` from `lock.lock()`, on the state as other threads have left it.
use kvcache_raft.Common.{
  ℕ, zero, suc, ◌+◌, ◌-◌, List, [], ◌∷◌, ◌++◌, Option, none, some, Bool, true, false, ◌||◌, ◌&&◌,
  not, ltb, leb, ◌==◌, str_eq, if◌then◌else◌, set, get_elem?, Outcome, ok, fault, exit_called,
  ◌>>=◌, ◌>>◌, assert, in_bounds, min, max,
}
use kvcache_raft.Proto.{LogEntry, AppendEntriesArgs, AppendEntriesReply}
use kvcache_raft.Raft.Types.{follower, RaftState, get_last_log_index, log_at, term_at}
use kvcache_raft.Raft.Saving.{persist_state}

-- `PendingLogWrite`: an entry to append, or one to write over the entry at an offset.
pub data PendingWrite : Type 0 where
  append_write : LogEntry → PendingWrite
  overwrite : ℕ → LogEntry → PendingWrite

-- What is to be done about one entry of the request, given the entry of the node at its index.
unfoldable pub compare_entry : ℕ → LogEntry → LogEntry → Outcome (List PendingWrite)
compare_entry vec_index old log =
    if old.log_term == log.log_term && not (str_eq old.command log.command)
    then fault exit_called
    else ok (if old.log_term == log.log_term then [] else overwrite vec_index log ∷ [])

unfoldable pub pending_write : RaftState → ℕ → LogEntry → Outcome (List PendingWrite)
pending_write s last_index log =
    if leb log.log_index s.last_snapshot_index
    then ok []
    else if ltb last_index log.log_index
    then ok (append_write log ∷ [])
    else log_at s log.log_index >>= λ old.
        compare_entry (log.log_index - s.last_snapshot_index - 1) old log

-- The loop over `request->entries()`.
unfoldable pub pending_writes : RaftState → ℕ → List LogEntry → Outcome (List PendingWrite)
pending_writes s last_index [] = ok []
pending_writes s last_index (log ∷ rest) = do
  here ← pending_write s last_index log
  later ← pending_writes s last_index rest
  ok (here ++ later)

-- The loop that goes back from `prevlogindex` over the entries of its term, `k` above the snapshot.
unfoldable pub next_index_hint : RaftState → ℕ → ℕ → Outcome ℕ
next_index_hint s prev_term zero = ok (s.last_snapshot_index + 1)
next_index_hint s prev_term (suc k) =
    let rest = next_index_hint s prev_term k in
    log_at s (s.last_snapshot_index + suc k) >>= λ e.
    if e.log_term == prev_term then rest else ok (s.last_snapshot_index + suc k + 1)

-- Where the first locked part ends: with a reply, or waiting for these writes.
pub data BeginAppend : Type 0 where
  replied : RaftState → AppendEntriesReply → BeginAppend
  waiting : RaftState → List PendingWrite → BeginAppend

abbrev pub reject : RaftState → Option ℕ → AppendEntriesReply
reject s hint = record { term = s.current_term; success = false; update_next_index = hint }

-- A follower of the request's term.
unfoldable pub follow : ℕ → ℕ → RaftState → RaftState
follow now term s = record s {
  identity = follower;
  current_term = if ltb s.current_term term then term else s.current_term;
  vote_for_id = if ltb s.current_term term then none else s.vote_for_id;
  last_election_time = now;
}

-- The comparison at `prevlogindex`, once that lies within the node's log.
unfoldable pub match_prev : AppendEntriesArgs → RaftState → Outcome BeginAppend
match_prev request s = term_at s request.prev_log_index >>= λ prev_term.
    if request.prev_log_term == prev_term
    then (pending_writes s (get_last_log_index s) request.entries >>= λ writes.
        ok (waiting s writes))
    else (next_index_hint s prev_term (request.prev_log_index - s.last_snapshot_index) >>= λ hint.
        ok (replied (persist_state s) (reject s (some hint))))

-- `AppendEntries` up to `lock.unlock()`.
unfoldable pub begin_append : ℕ → AppendEntriesArgs → RaftState → Outcome BeginAppend
begin_append now request s =
    let f = follow now request.term s in
    if ltb request.term s.current_term
    then ok (replied s (reject s none))
    else if ltb (get_last_log_index f) request.prev_log_index
    then ok (replied (persist_state f) (reject f (some (get_last_log_index f + 1))))
    else if ltb request.prev_log_index s.last_snapshot_index
    then ok (replied (persist_state f) (reject f (some (s.last_snapshot_index + 1))))
    else match_prev request f

-- An overwrite needs an entry with the index of the new one at its offset.
unfoldable pub fits_at : List LogEntry → ℕ → LogEntry → Bool
fits_at logs vec_index log = elim (get_elem? logs vec_index) [
  | none ↦ false
  | some old ↦ old.log_index == log.log_index
]

-- The loop that checks that the writes still fit the log, with `simulatedLastIndex`: `none`, or
-- the hint of the refusal.
unfoldable pub recheck : RaftState → ℕ → List PendingWrite → Option ℕ
recheck s simulated [] = none
recheck s simulated (append_write log ∷ rest) =
    let skipped = recheck s simulated rest in
    let accepted = recheck s log.log_index rest in
    if leb log.log_index s.last_snapshot_index
    then skipped
    else if log.log_index == simulated + 1
    then accepted
    else some (simulated + 1)
recheck s simulated (overwrite vec_index log ∷ rest) =
    let accepted = recheck s simulated rest in
    if leb log.log_index s.last_snapshot_index
    then accepted
    else if fits_at s.logs vec_index log
    then accepted
    else some (get_last_log_index s + 1)

-- The loop that carries the writes out; an overwrite is `m_logs[item.vecIndex] = item.log`.
unfoldable pub apply_write : ℕ → List LogEntry → PendingWrite → Outcome (List LogEntry)
apply_write snapshot_index logs (append_write log) =
    if leb log.log_index snapshot_index then ok logs else ok (logs ++ log ∷ [])
apply_write snapshot_index logs (overwrite vec_index log) =
    if leb log.log_index snapshot_index
    then ok logs
    else (in_bounds (get_elem? logs vec_index) >>= λ old. ok (set logs vec_index log))

unfoldable pub apply_writes : ℕ → List LogEntry → List PendingWrite → Outcome (List LogEntry)
apply_writes snapshot_index logs [] = ok logs
apply_writes snapshot_index logs (w ∷ rest) =
    apply_write snapshot_index logs w >>= λ written. apply_writes snapshot_index written rest

-- The term at `prevlogindex` under the second lock, `none` where its offset is out of range.
unfoldable pub prev_term_again : RaftState → ℕ → Option ℕ
prev_term_again s index =
    if index == s.last_snapshot_index
    then some s.last_snapshot_term
    else if leb index s.last_snapshot_index
    then none
    else elim (get_elem? s.logs (index - s.last_snapshot_index - 1)) [
      | none ↦ none
      | some e ↦ some e.log_term
    ]

-- `prevlogindex` and its term still agree: `none`, or the hint of the refusal.
unfoldable pub recheck_prev : AppendEntriesArgs → RaftState → Option ℕ
recheck_prev request s =
    if ltb (get_last_log_index s) request.prev_log_index
    then some (get_last_log_index s + 1)
    else if ltb request.prev_log_index s.last_snapshot_index
    then some (s.last_snapshot_index + 1)
    else elim (prev_term_again s request.prev_log_index) [
      | none ↦ some (s.last_snapshot_index + 1)
      | some t ↦ if t == request.prev_log_term then none else some (s.last_snapshot_index + 1)
    ]

-- The log with the writes, `logs`, and the indexes that follow from it.
unfoldable pub accept : AppendEntriesArgs → List LogEntry → RaftState → RaftState
accept request logs s =
    let written = record s { logs = logs } in
    let last_index = get_last_log_index written in
    record written {
      stable_log_index = max s.stable_log_index last_index;
      commit_index =
          if ltb s.commit_index request.leader_commit
          then min request.leader_commit last_index
          else s.commit_index;
    }

-- `AppendEntries` from `lock.lock()`; `stable` is what `AppendLogAndWaitStable` has returned.
unfoldable pub finish_append :
    AppendEntriesArgs
    → List PendingWrite
    → Bool
    → RaftState
    → Outcome (RaftState × AppendEntriesReply)
finish_append request writes stable s =
    if not stable || not (s.current_term == request.term)
    then ok (persist_state s, reject s none)
    else elim (recheck_prev request s) [
      | some hint ↦ ok (persist_state s, reject s (some hint))
      | none ↦ elim (recheck s (get_last_log_index s) writes) [
        | some hint ↦ ok (persist_state s, reject s (some hint))
        | none ↦ apply_writes s.last_snapshot_index s.logs writes >>= λ logs.
            let t = accept request logs s in
            assert (leb t.commit_index (get_last_log_index t))
            >> ok (
              persist_state t,
              record { term = t.current_term; success = true; update_next_index = none },
            )
      ]
    ]
