-- ===== src/Raft/Invariant/Compaction.antt =====
-- `Snapshot` of src/raft/raft.cc: the log is cut at the server's snapshot.
use kvcache_raft.Common.{
  ℕ, zero, suc, ◌+◌, ◌-◌, ◌≤◌, ◌<◌, ◌≡◌, refl, true, false, String, get_elem?-drop, arith, length,
  length-drop, drop, drop-cons, take_all, ltb, leb, ◌==◌, Returns, Returns-mono, ok, ◌||◌, ◌⊎◌,
}
use kvcache_raft.Proto.{LogEntry}
use kvcache_raft.Raft.Types.{RaftState, log_at}
use kvcache_raft.Raft.Saving.{persist_state}
use kvcache_raft.Raft.Snapshots.{copy_entries, snapshot_upto}
use kvcache_raft.Raft.Invariant.Contiguous.{Contiguous, drop-Contiguous}
use kvcache_raft.Raft.Invariant.WellFormed.{
  IsWellFormed, get_last_log_index-Contiguous, log_at-Contiguous, entries_from,
}

copy_entries-entries_from :
    (s : RaftState) (index count : ℕ)
    → Contiguous s.last_snapshot_index s.logs
    → s.last_snapshot_index < index
    → index + count ≤ s.last_snapshot_index + length s.logs + 1
    → copy_entries s index count ≡ ok (entries_from s index count)
unfolding copy_entries
copy_entries-entries_from s index zero c lo hi = refl
copy_entries-entries_from s index (suc count) c lo hi =
    let (e, p, q, r) = log_at-Contiguous s index c lo (omega arith) in
    let ih = copy_entries-entries_from s (index + 1) count c (omega arith) (omega arith) in
    let d = drop-cons s.logs (index - s.last_snapshot_index - 1) r in
    let n : index + 1 - s.last_snapshot_index - 1 ≡ suc (index - s.last_snapshot_index - 1) =
      omega arith in
    rw (p, ih, d, n) refl

-- The state after a snapshot of everything up to `index`, whose last entry is of term `t`.
pub record IsCutAt (index t : ℕ) (s u : RaftState) : Type 0 where
  pub at : u.last_snapshot_index ≡ index
  pub term : u.last_snapshot_term ≡ t
  pub kept : u.logs ≡ drop (index - s.last_snapshot_index) s.logs
  pub commit : u.commit_index ≡ s.commit_index
  pub well_formed : IsWellFormed u

cut_tail :
    (s : RaftState) (index : ℕ)
    → s.last_snapshot_index < index
    → index ≤ s.last_snapshot_index + length s.logs
    → entries_from s (index + 1) (s.last_snapshot_index + length s.logs - index)
      ≡ drop (index - s.last_snapshot_index) s.logs
cut_tail s index lo hi =
    let n : index + 1 - s.last_snapshot_index - 1 ≡ index - s.last_snapshot_index = omega arith in
    let l = length-drop (index - s.last_snapshot_index) s.logs in rw n (take_all _ _ (omega arith))

-- On a well-formed state, a `Snapshot` at an index above the last snapshot and not above the
-- commit index returns; its assertion holds. The index is the new snapshot index, its entry's
-- term the new snapshot term, the log what was behind it, the commit index as before, and the
-- state is well formed.
pub snapshot_upto-IsCutAt :
    (index : ℕ) (text : String) (s : RaftState)
    → IsWellFormed s
    → s.last_snapshot_index < index
    → index ≤ s.commit_index
    → (e : LogEntry) × (log_at s index ≡ ok e)
      × Returns (IsCutAt index e.log_term s) (snapshot_upto index text s)
unfolding snapshot_upto persist_state
snapshot_upto-IsCutAt index text s v lo hi =
    let top : index ≤ s.last_snapshot_index + length s.logs = omega (arith, v.commit_le_last) in
    let (e, p, q, r) = log_at-Contiguous s index v.contiguous lo top in
    let l = get_last_log_index-Contiguous s v.contiguous in
    let cp =
      copy_entries-entries_from s (index + 1) (s.last_snapshot_index + length s.logs - index)
        v.contiguous (omega arith) (omega arith) in
    let k = cut_tail s index lo top in
    let c =
      drop-Contiguous (index - s.last_snapshot_index) s.last_snapshot_index index s.logs
        (omega arith) (omega arith) v.contiguous in
    let n = length-drop (index - s.last_snapshot_index) s.logs in
    let allowed : (leb index s.last_snapshot_index || ltb s.commit_index index) ≡ false =
      ground arith in
    let whole : (length (drop (index - s.last_snapshot_index) s.logs) + index
          == s.last_snapshot_index + length s.logs)
        ≡ true =
      ground arith in
    (
      e,
      p,
      rw (allowed, p, l, cp, k, whole) (ground (arith, v.snapshot_le_applied, v.applied_le_commit)),
    )

-- A snapshot that is refused changes nothing.
pub snapshot_upto_refused :
    (index : ℕ) (text : String) (s : RaftState)
    → (index ≤ s.last_snapshot_index) ⊎ (s.commit_index < index)
    → snapshot_upto index text s ≡ ok s
unfolding snapshot_upto
snapshot_upto_refused index text s h = ground arith

module _ {index t : ℕ} {s u : RaftState} (cut : IsCutAt index t s u) where
  -- Above the snapshot every read finds what it found before.
  log_at-IsCutAt : (i : ℕ) → s.last_snapshot_index ≤ index → index < i → log_at u i ≡ log_at s i
  unfolding log_at
  log_at-IsCutAt i le lt =
      let d = get_elem?-drop (index - s.last_snapshot_index) (i - index - 1) s.logs in
      let n : index - s.last_snapshot_index + (i - index - 1) ≡ i - s.last_snapshot_index - 1 =
        omega arith in
      let hu : leb i u.last_snapshot_index ≡ false = ground (arith, cut.at) in
      let hs : leb i s.last_snapshot_index ≡ false = ground arith in
      rw (hu, hs, cut.at, cut.kept, d, n) refl

-- On a well-formed state, after a `Snapshot` at an index above the last snapshot and not above the
-- commit index, every index above the new snapshot reads as before it.
pub snapshot_upto-log_at :
    (index : ℕ) (text : String) (s : RaftState)
    → IsWellFormed s
    → s.last_snapshot_index < index
    → index ≤ s.commit_index
    → Returns (λ u. (i : ℕ) → index < i → log_at u i ≡ log_at s i) (snapshot_upto index text s)
snapshot_upto-log_at index text s v lo hi =
    let (e, _, cut) = snapshot_upto-IsCutAt index text s v lo hi in
    Returns-mono (IsCutAt index e.log_term s) (λ u. (i : ℕ) → index < i → log_at u i ≡ log_at s i) _
      cut (λ u c i h. log_at-IsCutAt c i (omega arith) h)
