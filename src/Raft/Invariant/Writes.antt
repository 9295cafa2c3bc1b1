-- ===== src/Raft/Invariant/Writes.antt =====
-- The second locked part of `AppendEntries` (src/raft/raft.cc), on a state that other threads may
-- have changed, and the invariant.
use kvcache_raft.Common.{
  ℕ, ◌+◌, ◌≤◌, ◌<◌, ◌≡◌, List, [], ◌∷◌, ◌++◌, Bool, true, none, arith, length, length-append,
  length-set, get_elem?, get_elem?-lt, set, leb, Returns, Returns-ok, Returns-mono, Outcome, ok,
  get_elem?-some, not, ◌||◌, ◌==◌, inl, inr, Bool-cases, Option-cases,
}
use kvcache_raft.Proto.{LogEntry, AppendEntriesArgs}
use kvcache_raft.Raft.Types.{RaftState, get_last_log_index}
use kvcache_raft.Raft.Append.{
  PendingWrite, append_write, overwrite, fits_at, recheck, recheck_prev, apply_write, apply_writes,
  accept, finish_append,
}
use kvcache_raft.Raft.Invariant.Contiguous.{
  Contiguous, get_elem?-Contiguous, append-Contiguous, set-Contiguous,
}
use kvcache_raft.Raft.Invariant.WellFormed.{IsWellFormed, get_last_log_index-Contiguous}
use kvcache_raft.Raft.Invariant.Votes.{persist_state-IsWellFormed}

pub fits_at-offset :
    (b v : ℕ) (es : List LogEntry) (log : LogEntry)
    → Contiguous b es
    → fits_at es v log ≡ true
    → (log.log_index ≡ b + v + 1) × (v < length es)
unfolding fits_at
fits_at-offset b v es log c h = elim (Option-cases (get_elem? es v)) [
  | inl e ↦ absurd (ground arith)
  | inr (old, e) ↦
      let p = get_elem?-Contiguous b es v c e in let q = get_elem?-lt es v e in (ground arith, q)
]

-- The log after the writes: its indexes are consecutive, and no entry is dropped.
abbrev pub Continues : ℕ → List LogEntry → List LogEntry → Type 0
Continues b logs written = Contiguous b written × (length logs ≤ length written)

Continues-longer :
    (b : ℕ) (logs longer : List LogEntry) (m : Outcome (List LogEntry))
    → length logs ≤ length longer
    → Returns (Continues b longer) m
    → Returns (Continues b logs) m
Continues-longer b logs longer m le h =
    Returns-mono (Continues b longer) (Continues b logs) m h (λ w c. (c.0, omega (arith, c.1)))

-- The writes that pass the check stay within bounds, on the log or a longer one.
pub apply_writes-Contiguous :
    (s : RaftState) (ws : List PendingWrite) (logs : List LogEntry) (simulated : ℕ)
    → Contiguous s.last_snapshot_index s.logs
    → Contiguous s.last_snapshot_index logs
    → length s.logs ≤ length logs
    → simulated ≡ s.last_snapshot_index + length logs
    → recheck s simulated ws ≡ none
    → Returns (Continues s.last_snapshot_index logs) (apply_writes s.last_snapshot_index logs ws)
unfolding recheck apply_writes apply_write
apply_writes-Contiguous s [] logs sim c d n e h = (d, omega arith)
apply_writes-Contiguous s (append_write log ∷ ws) logs sim c d n e h =
    elim (Bool-cases (leb log.log_index s.last_snapshot_index)) [
      | inl low ↦ rw low (apply_writes-Contiguous s ws logs sim c d n e (ground arith))
      | inr high ↦
          let k : log.log_index ≡ sim + 1 = ground arith in
          let size = length-append logs (log ∷ []) in
          rw high (
            Continues-longer s.last_snapshot_index logs (logs ++ log ∷ []) _ (omega arith) (
              apply_writes-Contiguous s ws (logs ++ log ∷ []) log.log_index c
                (append-Contiguous s.last_snapshot_index logs log d (omega arith)) (omega arith)
                (omega arith) (ground arith)))
    ]
apply_writes-Contiguous s (overwrite v log ∷ ws) logs sim c d n e h =
    elim (Bool-cases (leb log.log_index s.last_snapshot_index)) [
      | inl low ↦ rw low (apply_writes-Contiguous s ws logs sim c d n e (ground arith))
      | inr high ↦
          let f : fits_at s.logs v log ≡ true = ground arith in
          let (at, lt) = fits_at-offset s.last_snapshot_index v s.logs log c f in
          let (old, p) = get_elem?-some logs v (omega arith) in
          let size = length-set logs v log in
          rw (high, p)
            (Continues-longer s.last_snapshot_index logs (set logs v log) _ (omega arith) (
              apply_writes-Contiguous s ws (set logs v log) sim c
                (set-Contiguous s.last_snapshot_index logs v log d at) (omega arith) (omega arith)
                (ground arith)))
    ]

pub carried_out :
    (writes : List PendingWrite) (s : RaftState)
    → IsWellFormed s
    → recheck s (get_last_log_index s) writes ≡ none
    → (logs : List LogEntry) × (apply_writes s.last_snapshot_index s.logs writes ≡ ok logs)
      × Continues s.last_snapshot_index s.logs logs
carried_out writes s v h = Returns-ok (Continues s.last_snapshot_index s.logs) _ (
    apply_writes-Contiguous s writes s.logs _ v.contiguous v.contiguous (omega arith)
      (get_last_log_index-Contiguous s v.contiguous) h)

pub accept-IsWellFormed :
    (request : AppendEntriesArgs) (logs : List LogEntry) (s : RaftState)
    → IsWellFormed s
    → Continues s.last_snapshot_index s.logs logs
    → IsWellFormed (accept request logs s)
      × ((accept request logs s).commit_index ≤ get_last_log_index (accept request logs s))
unfolding accept
accept-IsWellFormed request logs s v (c, n) =
    let t = record s { logs = logs } in
    let l = get_last_log_index-Contiguous t c in
    let m = get_last_log_index-Contiguous (accept request logs s) c in ground arith

-- On a well-formed state the second locked part of `AppendEntries` returns, with a well-formed
-- state, whatever the request, the planned writes and the result of the disk write are: no write
-- that it carries out is out of the bounds of the log or leaves a gap in it, and its assertion on
-- the commit index holds.
pub finish_append-IsWellFormed :
    (request : AppendEntriesArgs) (writes : List PendingWrite) (stable : Bool) (s : RaftState)
    → IsWellFormed s
    → Returns (λ r. IsWellFormed r.0) (finish_append request writes stable s)
unfolding finish_append
finish_append-IsWellFormed request writes stable s v =
    let same = persist_state-IsWellFormed v in
    elim (Bool-cases (not stable || not (s.current_term == request.term))) [
      | inl refused ↦ rw refused same
      | inr goes ↦ elim (Option-cases (recheck_prev request s)) [
        | inr (hint, e) ↦ rw (goes, e) same
        | inl e ↦ elim (Option-cases (recheck s (get_last_log_index s) writes)) [
          | inr (hint, f) ↦ rw (goes, e, f) same
          | inl f ↦
              let (logs, g, c) = carried_out writes s v f in
              let (w, bound) = accept-IsWellFormed request logs s v c in
              rw (goes, e, f, g)
                (ground (arith, persist_state-IsWellFormed {s = accept request logs s} w))
        ]
      ]
    ]
