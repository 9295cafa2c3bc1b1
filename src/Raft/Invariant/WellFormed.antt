-- ===== src/Raft/Invariant/WellFormed.antt =====
-- The invariant of the state of include/raft/raft.h, and how the log is read under it.
use kvcache_raft.Common.{
  ℕ, ◌+◌, ◌-◌, ◌≤◌, ◌<◌, ◌≡◌, refl, List, [], ◌∷◌, some, arith, length, get_elem?, get_elem?-some,
  take, drop, ok,
}
use kvcache_raft.Proto.{LogEntry}
use kvcache_raft.Raft.Types.{RaftState, get_last_log_index, log_at}
use kvcache_raft.Raft.Invariant.Contiguous.{Contiguous, last-Contiguous, get_elem?-Contiguous}

-- The log continues the snapshot without a gap; what has been applied is committed, what is
-- committed is in the log or the snapshot; the vectors have a place for each peer.
pub record IsWellFormed (s : RaftState) : Type 0 where
  pub contiguous : Contiguous s.last_snapshot_index s.logs
  pub snapshot_le_applied : s.last_snapshot_index ≤ s.last_applied
  pub applied_le_commit : s.last_applied ≤ s.commit_index
  pub commit_le_last : s.commit_index ≤ s.last_snapshot_index + length s.logs
  pub next_size : length s.next_index ≡ s.peers
  pub match_size : length s.match_index ≡ s.peers

last_index_of :
    (s : RaftState) (es : List LogEntry)
    → s.logs ≡ es
    → Contiguous s.last_snapshot_index es
    → get_last_log_index s ≡ s.last_snapshot_index + length es
unfolding get_last_log_index
last_index_of s [] e c = rw e (omega arith)
last_index_of s (x ∷ es) e c =
    let (y, p, q) = last-Contiguous s.last_snapshot_index x es c in ground arith

pub get_last_log_index-Contiguous :
    (s : RaftState)
    → Contiguous s.last_snapshot_index s.logs
    → get_last_log_index s ≡ s.last_snapshot_index + length s.logs
get_last_log_index-Contiguous s c = last_index_of s s.logs refl c

-- A read above the snapshot and not above the last index succeeds, and finds the entry of the index.
pub log_at-Contiguous :
    (s : RaftState) (index : ℕ)
    → Contiguous s.last_snapshot_index s.logs
    → s.last_snapshot_index < index
    → index ≤ s.last_snapshot_index + length s.logs
    → (e : LogEntry) × (log_at s index ≡ ok e)
      × (e.log_index ≡ index)
      × (get_elem? s.logs (index - s.last_snapshot_index - 1) ≡ some e)
unfolding log_at
log_at-Contiguous s index c lo hi =
    let (e, p) = get_elem?-some s.logs (index - s.last_snapshot_index - 1) (omega arith) in
    let q = get_elem?-Contiguous s.last_snapshot_index s.logs _ c p in
    (e, ground arith, omega arith, p)

-- The `count` entries of the log from `index` on.
abbrev pub entries_from : RaftState → ℕ → ℕ → List LogEntry
entries_from s index count = take count (drop (index - s.last_snapshot_index - 1) s.logs)
