-- ===== src/Raft/Matching/Accept.antt =====
-- `AppendEntries` of src/raft/raft.cc from the plan to the accepted log, where no other thread comes
-- between.
use kvcache_raft.Common.{
  ℕ, ◌+◌, ◌-◌, ◌≤◌, ◌<◌, ◌≡◌, refl, sym, subst, List, true, false, none, some, max, min, arith,
  length, get_elem?, ltb, leb, if◌then◌else◌, ok, inl, inr, Bool-cases,
}
use kvcache_raft.Proto.{LogEntry, AppendEntriesArgs}
use kvcache_raft.Raft.Types.{RaftState, log_at, term_at, get_last_log_index}
use kvcache_raft.Raft.Saving.{persist_state}
use kvcache_raft.Raft.Append.{
  PendingWrite, pending_writes, recheck, apply_writes, recheck_prev, accept, finish_append,
  prev_term_again, begin_append, match_prev, follow, waiting,
}
use kvcache_raft.Raft.Invariant.Contiguous.{Contiguous}
use kvcache_raft.Raft.Invariant.WellFormed.{IsWellFormed, get_last_log_index-Contiguous}
use kvcache_raft.Raft.Invariant.Writes.{accept-IsWellFormed, carried_out}
use kvcache_raft.Raft.Matching.Merge.{SameEntry, IsBefore, Merged}
use kvcache_raft.Raft.Matching.Carried.{pending_writes-Carried}
use kvcache_raft.Raft.Invariant.Appends.{follow-IsWellFormed}

-- What an accepted request leaves: every entry of it is in the log at its index, with its command
-- and term; below `prevlogindex` and behind the last entry of the request the log is as it was.
pub record IsAccepted (request : AppendEntriesArgs) (s t : RaftState) : Type 0 where
  pub found :
      (k : ℕ) (e : LogEntry)
      → get_elem? request.entries k ≡ some e
      → (x : LogEntry) × (log_at t (request.prev_log_index + k + 1) ≡ ok x) × SameEntry x e
  pub before : (i : ℕ) → i ≤ request.prev_log_index → log_at t i ≡ log_at s i
  pub behind :
      (i : ℕ) → request.prev_log_index + length request.entries < i → log_at t i ≡ log_at s i
  pub last :
      get_last_log_index t
      ≡ max (request.prev_log_index + length request.entries) (get_last_log_index s)
  pub commit : t.commit_index ≡ (
      if ltb s.commit_index request.leader_commit
      then min request.leader_commit (get_last_log_index t)
      else s.commit_index)

log_at-same :
    (s t : RaftState) (index : ℕ)
    → t.last_snapshot_index ≡ s.last_snapshot_index
    → (s.last_snapshot_index < index
        → get_elem? t.logs (index - s.last_snapshot_index - 1)
          ≡ get_elem? s.logs (index - s.last_snapshot_index - 1))
    → log_at t index ≡ log_at s index
unfolding log_at
log_at-same s t index b f = elim (Bool-cases (leb index s.last_snapshot_index)) [
  | inl low ↦ rw (b, low) refl
  | inr high ↦ rw (b, high, f (ground arith)) refl
]

log_at-found :
    (t : RaftState) (v index : ℕ) (x : LogEntry)
    → index ≡ t.last_snapshot_index + v + 1
    → get_elem? t.logs v ≡ some x
    → log_at t index ≡ ok x
unfolding log_at
log_at-found t v index x at h =
    let above : leb index t.last_snapshot_index ≡ false = ground arith in
    let o : index - t.last_snapshot_index - 1 ≡ v = omega arith in rw (above, o, h) refl

accept_commit :
    (request : AppendEntriesArgs) (logs : List LogEntry) (s : RaftState)
    → (accept request logs s).commit_index ≡ (
        if ltb s.commit_index request.leader_commit
        then min request.leader_commit (get_last_log_index (accept request logs s))
        else s.commit_index)
unfolding accept get_last_log_index
accept_commit request logs s = refl

-- The merged log, read by index.
accept-IsAccepted :
    (request : AppendEntriesArgs) (j : ℕ) (logs : List LogEntry) (s : RaftState)
    → IsWellFormed s
    → request.prev_log_index ≡ s.last_snapshot_index + j
    → j ≤ length s.logs
    → IsWellFormed (accept request logs s)
    → Merged s j request.entries s.logs logs
    → IsAccepted request s (accept request logs s)
unfolding accept
accept-IsAccepted request j logs s v at le w m =
    let b = s.last_snapshot_index in
    let t = accept request logs s in
    let l = get_last_log_index-Contiguous s v.contiguous in
    let l' = get_last_log_index-Contiguous t w.contiguous in
    record {
      found = λ k e h.
          let (x, q, same) = m.found k e h in
          (x, log_at-found t (j + k) (request.prev_log_index + k + 1) x (omega arith) q, same);
      before = λ i h. log_at-same s t i refl (λ lo. m.before (i - b - 1) (omega arith));
      behind = λ i h. log_at-same s t i refl (λ lo. m.behind (i - b - 1) (omega arith));
      last = omega (arith, m.size);
      commit = accept_commit request logs s;
    }

prev_term_again-term_at :
    (s : RaftState) (index p : ℕ) → term_at s index ≡ ok p → prev_term_again s index ≡ some p
unfolding prev_term_again term_at log_at
prev_term_again-term_at s index p h = ground arith

-- The comparison at `prevlogindex` in the second locked part is the one that the first has made.
recheck_prev-none :
    (request : AppendEntriesArgs) (s : RaftState)
    → s.last_snapshot_index ≤ request.prev_log_index
    → request.prev_log_index ≤ get_last_log_index s
    → term_at s request.prev_log_index ≡ ok request.prev_log_term
    → recheck_prev request s ≡ none
unfolding recheck_prev
recheck_prev-none request s lo hi h =
    let q = prev_term_again-term_at s request.prev_log_index request.prev_log_term h in ground arith

accept_term :
    (request : AppendEntriesArgs) (logs : List LogEntry) (s : RaftState)
    → (accept request logs s).current_term ≡ s.current_term
unfolding accept
accept_term request logs s = refl

finish_append-IsAccepted :
    (request : AppendEntriesArgs) (ws : List PendingWrite) (s : RaftState)
    → IsWellFormed s
    → Contiguous request.prev_log_index request.entries
    → s.last_snapshot_index ≤ request.prev_log_index
    → request.prev_log_index ≤ get_last_log_index s
    → term_at s request.prev_log_index ≡ ok request.prev_log_term
    → s.current_term ≡ request.term
    → pending_writes s (get_last_log_index s) request.entries ≡ ok ws
    → (logs : List LogEntry) × (apply_writes s.last_snapshot_index s.logs ws ≡ ok logs)
      × (finish_append request ws true s
          ≡ ok (
            persist_state (accept request logs s),
            record { term = s.current_term; success = true; update_next_index = none },
          ))
      × IsAccepted request s (accept request logs s)
unfolding finish_append
finish_append-IsAccepted request ws s v es lo hi prev term plan =
    let j = request.prev_log_index - s.last_snapshot_index in
    let l = get_last_log_index-Contiguous s v.contiguous in
    let at : request.prev_log_index ≡ s.last_snapshot_index + j = omega arith in
    let start : IsBefore s j s.logs = record { size = omega arith; rest = λ v h. refl } in
    let c =
      pending_writes-Carried s j request.entries s.logs ws v.contiguous
        (subst (λ z. Contiguous z request.entries) at es) start
        (subst (λ z. pending_writes s z request.entries ≡ ok ws) l plan) in
    let passes : recheck s (get_last_log_index s) ws ≡ none =
      subst (λ z. recheck s z ws ≡ none) (sym l) c.passes in
    let again = recheck_prev-none request s lo hi prev in
    let (logs, e, n) = carried_out ws s v passes in
    let own = c.writes in
    let same : c.result ≡ logs = cc in
    let (w, bound) = accept-IsWellFormed request logs s v n in
    (
      logs,
      e,
      ground (arith, again, passes, bound, term, e, accept_term request logs s),
      accept-IsAccepted request j logs s v at (omega arith) w
          (subst (λ z. Merged s j request.entries s.logs z) same c.merged),
    )

match_prev-waiting :
    (request : AppendEntriesArgs) (s f : RaftState) (ws : List PendingWrite)
    → match_prev request s ≡ ok (waiting f ws)
    → (f ≡ s)
      × (term_at s request.prev_log_index ≡ ok request.prev_log_term)
      × (pending_writes s (get_last_log_index s) request.entries ≡ ok ws)
unfolding match_prev
match_prev-waiting request s f ws h = ground arith

-- What the first locked part has checked when it goes on to wait for the disk.
begin_append-waiting :
    (now : ℕ) (request : AppendEntriesArgs) (s f : RaftState) (ws : List PendingWrite)
    → begin_append now request s ≡ ok (waiting f ws)
    → (f ≡ follow now request.term s)
      × (s.current_term ≤ request.term)
      × (s.last_snapshot_index ≤ request.prev_log_index)
      × (request.prev_log_index ≤ get_last_log_index f)
      × (term_at f request.prev_log_index ≡ ok request.prev_log_term)
      × (pending_writes f (get_last_log_index f) request.entries ≡ ok ws)
unfolding begin_append match_prev
begin_append-waiting now request s f ws h =
    ground (arith, match_prev-waiting request (follow now request.term s) f ws, follow)

-- The log, the snapshot and the commit index are not touched by becoming a follower.
follow-IsAccepted :
    (now : ℕ) (request : AppendEntriesArgs) (s t : RaftState)
    → IsAccepted request (follow now request.term s) t
    → IsAccepted request s t
unfolding follow log_at get_last_log_index
follow-IsAccepted now request s t a = record {
  found = a.found;
  before = a.before;
  behind = a.behind;
  last = a.last;
  commit = a.commit;
}

follow_base :
    (now term : ℕ) (s : RaftState) → (follow now term s).last_snapshot_index ≡ s.last_snapshot_index
unfolding follow
follow_base now term s = refl

follow_term :
    (now term : ℕ) (s : RaftState) → s.current_term ≤ term → (follow now term s).current_term ≡ term
unfolding follow
follow_term now term s h = ground arith

-- A request whose first locked part goes on to the disk write is accepted, if the write succeeds
-- and no other thread changes the node meanwhile: on a well-formed state, with entries numbered
-- from `prevlogindex` on, the planned writes are all within the bounds of the log, and the second
-- part carries them out and replies with success. Each entry of the request is then found at its
-- index with its term and command; up to `prevlogindex` and behind the last entry of the request
-- the log reads as before; the last index is the larger of the two ends; and the commit index is
-- raised to the leader's, cut to the last index, if the leader's is greater.
pub append_entries-IsAccepted :
    (now : ℕ) (request : AppendEntriesArgs) (s f : RaftState) (ws : List PendingWrite)
    → IsWellFormed s
    → Contiguous request.prev_log_index request.entries
    → begin_append now request s ≡ ok (waiting f ws)
    → (logs : List LogEntry) × (apply_writes f.last_snapshot_index f.logs ws ≡ ok logs)
      × (finish_append request ws true f
          ≡ ok (
            persist_state (accept request logs f),
            record { term = request.term; success = true; update_next_index = none },
          ))
      × IsAccepted request s (accept request logs f)
append_entries-IsAccepted now request s f ws v es h =
    let (e, le, lo, hi, prev, plan) = begin_append-waiting now request s f ws h in
    let term = follow_term now request.term s le in
    let w = follow-IsWellFormed now request.term {s = s} v in
    let F = follow now request.term s in
    let (logs, writes, run, a) =
      finish_append-IsAccepted request ws F w es
        (subst (λ z. z ≤ request.prev_log_index) (sym (follow_base now request.term s)) lo)
        (subst (λ z. request.prev_log_index ≤ get_last_log_index z) e hi)
        (subst (λ z. term_at z request.prev_log_index ≡ ok request.prev_log_term) e prev) term
        (subst (λ z. pending_writes z (get_last_log_index z) request.entries ≡ ok ws) e plan) in
    let run' =
      subst
        (λ z.
          finish_append request ws true F
          ≡ ok (
            persist_state (accept request logs F),
            record { term = z; success = true; update_next_index = none },
          ))
        term run in
    subst
      (λ z.
        (l : List LogEntry) × (apply_writes z.last_snapshot_index z.logs ws ≡ ok l)
        × (finish_append request ws true z
            ≡ ok (
              persist_state (accept request l z),
              record { term = request.term; success = true; update_next_index = none },
            ))
        × IsAccepted request s (accept request l z))
      (sym e) (logs, writes, run', follow-IsAccepted now request s (accept request logs F) a)
