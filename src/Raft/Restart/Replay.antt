-- ===== src/Raft/Restart/Replay.antt =====
-- The write-ahead log of src/persist/Persister.cc, read again by `ReadPersistedLogs`.
use kvcache_raft.Common.{
  ℕ, suc, ◌+◌, ◌-◌, ◌≤◌, ◌≡◌, refl, sym, ◌∙◌, subst, List, [], ◌∷◌, ◌++◌, true, inl, inr,
  Bool-cases, arith, length, length-append, length-take, take, take_all, append-nil, append_assoc,
  ltb, leb, if◌then◌else◌,
}
use kvcache_raft.Proto.{LogEntry}
use kvcache_raft.Persister.{Persister, compact_wal}
use kvcache_raft.Persister.Replay.{read_wal, replay_entry, replay_from, replay}
use kvcache_raft.Raft.Invariant.Contiguous.{
  Contiguous, append-Contiguous, take-Contiguous, last-Contiguous,
}

-- What one record makes of a log that it is read after: a record above the snapshot that leaves no
-- gap replaces what is at its index and behind it, any other is dropped.
abbrev pub with_record : ℕ → List LogEntry → LogEntry → List LogEntry
with_record b logs e =
    if ltb b e.log_index
    then (if leb e.log_index (b + length logs + 1)
        then take (e.log_index - b - 1) logs ++ e ∷ []
        else logs)
    else logs

replay_entry-with_record :
    (b : ℕ) (logs : List LogEntry) (e : LogEntry)
    → Contiguous b logs
    → replay_entry b logs e ≡ with_record b logs e
unfolding replay_entry
replay_entry-with_record b [] e c = ground (arith, take_all {A = LogEntry} (e.log_index - b - 1) [])
replay_entry-with_record b (x ∷ xs) e c =
    let (back, p, q) = last-Contiguous b x xs c in
    let t = take_all (e.log_index - b - 1) (x ∷ xs) in rw p (ground (arith, t))

with_record-Contiguous :
    (b : ℕ) (logs : List LogEntry) (e : LogEntry)
    → Contiguous b logs
    → Contiguous b (with_record b logs e)
with_record-Contiguous b logs e c =
    let n = length-take (e.log_index - b - 1) logs in
    let t = take-Contiguous b (e.log_index - b - 1) logs c in
    ground (arith, append-Contiguous b (take (e.log_index - b - 1) logs) e t)

replay_from-Contiguous :
    (b : ℕ) (logs es : List LogEntry) → Contiguous b logs → Contiguous b (replay_from b logs es)
unfolding replay_from
replay_from-Contiguous b logs [] c = c
replay_from-Contiguous b logs (e ∷ es) c =
    replay_from-Contiguous b (replay_entry b logs e) es
      (rw (replay_entry-with_record b logs e c) (with_record-Contiguous b logs e c))

-- Whatever records there are, the log that is read from them continues the snapshot without a gap.
pub replay-Contiguous : (b : ℕ) (wal : List LogEntry) → Contiguous b (replay b wal)
unfolding replay
replay-Contiguous b wal = replay_from-Contiguous b [] (read_wal b wal) tt

replay_from-append :
    (b : ℕ) (logs es : List LogEntry) (e : LogEntry)
    → replay_from b logs (es ++ e ∷ []) ≡ replay_entry b (replay_from b logs es) e
unfolding replay_from
replay_from-append b logs [] e = refl
replay_from-append b logs (x ∷ es) e = replay_from-append b (replay_entry b logs x) es e

read_wal-append :
    (b : ℕ) (es : List LogEntry) (e : LogEntry)
    → read_wal b (es ++ e ∷ [])
      ≡ (if ltb b e.log_index then read_wal b es ++ e ∷ [] else read_wal b es)
unfolding read_wal
read_wal-append b [] e = refl
read_wal-append b (x ∷ es) e = rw (read_wal-append b es e) (ground arith)

-- A record behind the write-ahead log is read back as follows: if its index is above the snapshot
-- and not beyond the end of the log that is read from the other records, that log is cut in front
-- of the index and the record put there; else it is ignored.
pub replay-append :
    (b : ℕ) (wal : List LogEntry) (e : LogEntry)
    → replay b (wal ++ e ∷ []) ≡ with_record b (replay b wal) e
unfolding replay
replay-append b wal e = elim (Bool-cases (ltb b e.log_index)) [
  | inl above ↦
      rw (read_wal-append b wal e, above)
        (replay_from-append b [] (read_wal b wal) e
          ∙ replay_entry-with_record b _ e (replay-Contiguous b wal)
          ∙ (rw above refl))
  | inr low ↦ rw (read_wal-append b wal e, low) refl
]

read_wal-Contiguous : (b d : ℕ) (es : List LogEntry) → b ≤ d → Contiguous d es → read_wal b es ≡ es
unfolding read_wal
read_wal-Contiguous b d [] h c = refl
read_wal-Contiguous b d (e ∷ es) h c =
    let above : ltb b e.log_index ≡ true = ground arith in
    rw (above, read_wal-Contiguous b (suc d) es (omega arith) c.1) refl

replay_from-continues :
    (b : ℕ) (logs es : List LogEntry)
    → Contiguous b logs
    → Contiguous (b + length logs) es
    → replay_from b logs es ≡ logs ++ es
unfolding replay_from
replay_from-continues b logs [] c d = sym (append-nil logs)
replay_from-continues b logs (e ∷ es) c d =
    let n = length-append logs (e ∷ []) in
    let up : suc (b + length logs) ≡ b + length (logs ++ e ∷ []) = omega arith in
    let t = take_all (e.log_index - b - 1) logs (omega arith) in
    let above : ltb b e.log_index ≡ true = ground arith in
    let fits : leb e.log_index (b + length logs + 1) ≡ true = ground arith in
    rw (replay_entry-with_record b logs e c, above, fits, t)
      (replay_from-continues b (logs ++ e ∷ []) es (append-Contiguous b logs e c (omega arith))
          (subst (λ z. Contiguous z es) up d.1)
        ∙ append_assoc logs (e ∷ []) es)

replay-whole : (b : ℕ) (es : List LogEntry) → Contiguous b es → replay b es ≡ es
unfolding replay
replay-whole b es c =
    rw (read_wal-Contiguous b b es (omega arith) c)
      (replay_from-continues b [] es tt (subst (λ z. Contiguous z es) (omega arith) c))

-- Compacting the write-ahead log at a snapshot index loses nothing that is read above the index: the
-- log that is read from the compacted records is the one that is read from all of them.
pub replay-compact_wal : (b : ℕ) (p : Persister) → replay b (compact_wal b p).wal ≡ replay b p.wal
unfolding compact_wal
replay-compact_wal b p = replay-whole b (replay b p.wal) (replay-Contiguous b p.wal)
