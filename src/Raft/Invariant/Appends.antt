-- ===== src/Raft/Invariant/Appends.antt =====
-- The first locked part of `AppendEntries` (src/raft/raft.cc) and the invariant.
use kvcache_raft.Common.{
  ℕ, zero, suc, ◌+◌, ◌-◌, ◌≤◌, ◌<◌, ◌≡◌, List, [], ◌∷◌, ◌++◌, some, get_elem?, arith, length, ltb,
  leb, ◌==◌, Returns, ReturnsOrExits, Returns-mono, Returns-ok, ReturnsOrExits->>=, inl, inr,
  Bool-cases,
}
use kvcache_raft.Proto.{LogEntry, AppendEntriesArgs}
use kvcache_raft.Raft.Types.{RaftState, term_at}
use kvcache_raft.Raft.Append.{
  PendingWrite, append_write, overwrite, compare_entry, pending_write, pending_writes,
  next_index_hint, BeginAppend, replied, waiting, follow, match_prev, begin_append,
}
use kvcache_raft.Raft.Invariant.Contiguous.{Contiguous}
use kvcache_raft.Raft.Invariant.WellFormed.{
  IsWellFormed, get_last_log_index-Contiguous, log_at-Contiguous,
}
use kvcache_raft.Raft.Invariant.Votes.{persist_state-IsWellFormed}

-- A write that the comparison with the log plans: behind the log, or over an entry of the log
-- that has the same index and another term.
abbrev pub IsPlanned : RaftState → PendingWrite → Type 0
IsPlanned s (append_write log) = s.last_snapshot_index + length s.logs < log.log_index
IsPlanned s (overwrite v log) =
    (old : LogEntry) × (get_elem? s.logs v ≡ some old)
    × (old.log_index ≡ log.log_index)
    × (log.log_index ≡ s.last_snapshot_index + v + 1)
    × (¬ old.log_term ≡ log.log_term)

abbrev pub ArePlanned : RaftState → List PendingWrite → Type 0
ArePlanned s [] = Unit
ArePlanned s (w ∷ ws) = IsPlanned s w × ArePlanned s ws

ArePlanned-append :
    (s : RaftState) (xs ys : List PendingWrite)
    → ArePlanned s xs
    → ArePlanned s ys
    → ArePlanned s (xs ++ ys)
ArePlanned-append s [] ys p q = q
ArePlanned-append s (x ∷ xs) ys p q = (p.0, ArePlanned-append s xs ys p.1 q)

compare_entry-ArePlanned :
    (s : RaftState) (v : ℕ) (old log : LogEntry)
    → get_elem? s.logs v ≡ some old
    → old.log_index ≡ log.log_index
    → log.log_index ≡ s.last_snapshot_index + v + 1
    → ReturnsOrExits (ArePlanned s) (compare_entry v old log)
unfolding compare_entry
compare_entry-ArePlanned s v old log at same h = elim (Bool-cases (old.log_term == log.log_term)) [
  | inl own ↦ rw own (ground arith)
  | inr other ↦ rw other ((old, at, same, h, λ e. absurd (ground arith)), tt)
]

pending_write-ArePlanned :
    (s : RaftState) (log : LogEntry)
    → Contiguous s.last_snapshot_index s.logs
    → ReturnsOrExits (ArePlanned s) (pending_write s (s.last_snapshot_index + length s.logs) log)
unfolding pending_write
pending_write-ArePlanned s log c = elim (Bool-cases (leb log.log_index s.last_snapshot_index)) [
  | inl below ↦ rw below tt
  | inr above ↦
      rw above (elim (Bool-cases (ltb (s.last_snapshot_index + length s.logs) log.log_index)) [
        | inl new ↦ rw new (ground arith)
        | inr old ↦ rw old (
            let (e, p, q, r) = log_at-Contiguous s log.log_index c (ground arith) (ground arith) in
            rw p (compare_entry-ArePlanned s _ e log r q (ground arith)))
      ])
]

pub pending_writes-ArePlanned :
    (s : RaftState) (logs : List LogEntry)
    → Contiguous s.last_snapshot_index s.logs
    → ReturnsOrExits (ArePlanned s) (pending_writes s (s.last_snapshot_index + length s.logs) logs)
unfolding pending_writes
pending_writes-ArePlanned s [] c = tt
pending_writes-ArePlanned s (log ∷ rest) c =
    ReturnsOrExits->>= (ArePlanned s) (ArePlanned s) _ _ (pending_write-ArePlanned s log c) λ xs p.
      ReturnsOrExits->>= (ArePlanned s) (ArePlanned s) _ _ (pending_writes-ArePlanned s rest c)
        λ ys q. ArePlanned-append s xs ys p q

-- The hint lies above the snapshot and not above the index behind `k` entries.
abbrev pub IsHint : RaftState → ℕ → ℕ → Type 0
IsHint s k h = (s.last_snapshot_index < h) × (h ≤ s.last_snapshot_index + k + 1)

pub next_index_hint_bounds :
    (s : RaftState) (t k : ℕ)
    → Contiguous s.last_snapshot_index s.logs
    → k ≤ length s.logs
    → Returns (IsHint s k) (next_index_hint s t k)
unfolding next_index_hint
next_index_hint_bounds s t zero c h = omega arith
next_index_hint_bounds s t (suc k) c h =
    let (e, p, q, r) =
      log_at-Contiguous s (s.last_snapshot_index + suc k) c (omega arith) (omega arith) in
    rw p (elim (Bool-cases (e.log_term == t)) [
      | inl same ↦ rw same (
          Returns-mono (IsHint s k) (IsHint s (suc k)) _
            (next_index_hint_bounds s t k c (omega arith)) (λ a b. omega arith))
      | inr other ↦ rw other (omega arith)
    ])

-- What the first locked part leaves behind.
abbrev pub BeginIsWellFormed : BeginAppend → Type 0
BeginIsWellFormed (replied s reply) = IsWellFormed s
BeginIsWellFormed (waiting s writes) = IsWellFormed s × ArePlanned s writes

term_at-Contiguous :
    (s : RaftState) (index : ℕ)
    → Contiguous s.last_snapshot_index s.logs
    → s.last_snapshot_index ≤ index
    → index ≤ s.last_snapshot_index + length s.logs
    → Returns (λ t. Unit) (term_at s index)
unfolding term_at
term_at-Contiguous s index c lo hi = elim (Bool-cases (index == s.last_snapshot_index)) [
  | inl same ↦ rw same tt
  | inr other ↦
      rw other (let (e, p, q, r) = log_at-Contiguous s index c (ground arith) hi in rw p tt)
]

match_prev-IsWellFormed :
    (request : AppendEntriesArgs) (s : RaftState)
    → IsWellFormed s
    → s.last_snapshot_index ≤ request.prev_log_index
    → request.prev_log_index ≤ s.last_snapshot_index + length s.logs
    → ReturnsOrExits BeginIsWellFormed (match_prev request s)
unfolding match_prev
match_prev-IsWellFormed request s v lo hi =
    let (t, e, _) =
      Returns-ok (λ _. Unit) _ (term_at-Contiguous s request.prev_log_index v.contiguous lo hi) in
    let (h, f, b) = Returns-ok (IsHint s _) _ (
      next_index_hint_bounds s t (request.prev_log_index - s.last_snapshot_index) v.contiguous
        (omega arith)) in
    rw e (elim (Bool-cases (request.prev_log_term == t)) [
      | inl same ↦
          rw (same, get_last_log_index-Contiguous s v.contiguous)
            (ReturnsOrExits->>= (ArePlanned s) BeginIsWellFormed _ _
              (pending_writes-ArePlanned s request.entries v.contiguous) (λ ws p. (v, p)))
      | inr other ↦ rw (other, f) (persist_state-IsWellFormed v)
    ])

pub follow-IsWellFormed :
    (now term : ℕ) {s : RaftState} → IsWellFormed s → IsWellFormed (follow now term s)
unfolding follow
follow-IsWellFormed now term v = ground arith

-- On a well-formed state the first locked part of `AppendEntries` returns or calls `exit`, on any
-- request: it reads nothing out of bounds and fails no assertion. The state it leaves is well
-- formed, and each write it plans is for an index behind the log, or for the offset at which
-- the log holds an entry of the same index and another term.
pub begin_append-IsWellFormed :
    (now : ℕ) (request : AppendEntriesArgs) (s : RaftState)
    → IsWellFormed s
    → ReturnsOrExits BeginIsWellFormed (begin_append now request s)
unfolding begin_append follow
begin_append-IsWellFormed now request s v =
    let f = follow now request.term s in
    let w = follow-IsWellFormed now request.term {s = s} v in
    ground (
      arith,
      get_last_log_index-Contiguous f w.contiguous,
      match_prev-IsWellFormed request f w,
      persist_state-IsWellFormed {s = f} w,
    )
