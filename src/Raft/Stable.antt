-- ===== src/Raft/Stable.antt =====
-- `onLogStable` of src/raft/raft.cc: a write to the disk has failed, or has ended well after
-- that of an earlier entry has failed.
use kvcache_raft.Common.{
  ℕ, zero, suc, ◌+◌, ◌-◌, ◌≤◌, ◌<◌, ◌≡◌, refl, ap, ◌∙◌, String, some, List, [], ◌∷◌, true, false,
  inl, inr, Bool-cases, arith, length, length-take, get_elem?, take, ltb, leb,
}
use kvcache_raft.Proto.{LogEntry}
use kvcache_raft.Raft.Types.{RaftState, is_leader, log_at, get_last_log_index}
use kvcache_raft.Raft.Saving.{persist_state}
use kvcache_raft.Raft.Commands.{new_entry, start, holds_index, drop_unstable, on_log_stable}
use kvcache_raft.Raft.Invariant.Contiguous.{Contiguous, take-Contiguous}
use kvcache_raft.Raft.Invariant.WellFormed.{
  IsWellFormed, log_at-Contiguous, get_last_log_index-Contiguous,
}

get_elem?-take : (n i : ℕ) (xs : List LogEntry) → i < n → get_elem? (take n xs) i ≡ get_elem? xs i
get_elem?-take zero i xs h = absurd (omega arith)
get_elem?-take (suc n) i [] h = refl
get_elem?-take (suc n) zero (x ∷ xs) h = refl
get_elem?-take (suc n) (suc i) (x ∷ xs) h = get_elem?-take n i xs (omega arith)

holds_index-in_log :
    (s : RaftState) (index : ℕ)
    → Contiguous s.last_snapshot_index s.logs
    → s.last_snapshot_index < index
    → index ≤ s.last_snapshot_index + length s.logs
    → holds_index s index ≡ true
unfolding holds_index
holds_index-in_log s index c lo hi =
    let (e, p, q, r) = log_at-Contiguous s index c lo hi in rw (holds_index, r) (ground arith)

-- What a failed write leaves: the entries below `index`, as they were.
pub record IsCutBelow (index : ℕ) (s t : RaftState) : Type 0 where
  pub last : get_last_log_index t ≡ index - 1
  pub below : (i : ℕ) → i < index → log_at t i ≡ log_at s i
  pub commit : t.commit_index ≡ s.commit_index

cut_below :
    (s : RaftState) (index : ℕ)
    → Contiguous s.last_snapshot_index s.logs
    → s.last_snapshot_index < index
    → index ≤ s.last_snapshot_index + length s.logs
    → IsCutBelow index s (record s { logs = take (index - s.last_snapshot_index - 1) s.logs })
unfolding log_at
cut_below s index c lo hi =
    let n = index - s.last_snapshot_index - 1 in
    let l = length-take n s.logs in
    let e =
      get_last_log_index-Contiguous (record s { logs = take n s.logs })
        (take-Contiguous s.last_snapshot_index n s.logs c) in
    record {
      last = omega arith;
      below = λ i h. elim (Bool-cases (leb i s.last_snapshot_index)) [
        | inl low ↦ rw low refl
        | inr high ↦
            rw (high, get_elem?-take n (i - s.last_snapshot_index - 1) s.logs (ground arith)) refl
      ];
      commit = refl;
    }

-- On a well-formed state, when the write of an entry that is not committed and still in the log has
-- failed, the log ends in front of that entry; the entries before it and the commit index stay as
-- they were.
pub on_log_stable-failed :
    (index : ℕ) (s : RaftState)
    → IsWellFormed s
    → s.commit_index < index
    → index ≤ get_last_log_index s
    → IsCutBelow index s (on_log_stable false index s)
unfolding on_log_stable drop_unstable
on_log_stable-failed index s v lo hi =
    let l = get_last_log_index-Contiguous s v.contiguous in
    let base : s.last_snapshot_index < index =
      omega (arith, v.snapshot_le_applied, v.applied_le_commit) in
    let a : ltb s.commit_index index ≡ true = ground arith in
    let b : ltb s.last_snapshot_index index ≡ true = ground arith in
    let h = holds_index-in_log s index v.contiguous base (omega arith) in
    rw (a, b, h) (cut_below s index v.contiguous base (omega arith))

-- An end of a write that is told as a success changes neither the log nor the role.
on_log_stable-role :
    (index : ℕ) (s : RaftState) → (on_log_stable true index s).identity ≡ s.identity
unfolding on_log_stable persist_state
on_log_stable-role index s = ground arith

on_log_stable-last :
    (index : ℕ) (s : RaftState)
    → get_last_log_index (on_log_stable true index s) ≡ get_last_log_index s
unfolding on_log_stable persist_state get_last_log_index
on_log_stable-last index s = ground arith

failed_stable :
    (index : ℕ) (s : RaftState)
    → (on_log_stable false index s).stable_log_index ≡ s.stable_log_index
unfolding on_log_stable drop_unstable
failed_stable index s = ground arith

failed_role : (index : ℕ) (s : RaftState) → (on_log_stable false index s).identity ≡ s.identity
unfolding on_log_stable drop_unstable
failed_role index s = ground arith

on_log_stable-raised :
    (index : ℕ) (s : RaftState)
    → s.stable_log_index < index
    → (on_log_stable true index s).stable_log_index ≡ index
unfolding on_log_stable persist_state
on_log_stable-raised index s h = ground arith

-- The log ends in front of `index`, the stable index is `later`, and the entry that `Start` appends
-- next, at `index`, is not above the stable index.
pub record IsAhead (index later : ℕ) (command : String) (t : RaftState) : Type 0 where
  pub last : get_last_log_index t ≡ index - 1
  pub stable : t.stable_log_index ≡ later
  pub entry : LogEntry
  pub handed_over : (start command t).1 ≡ some entry
  pub numbered : entry.log_index ≡ index
  pub taken_for_stable : entry.log_index ≤ (start command t).0.stable_log_index

-- On a well-formed leader, let the write of an entry fail that is above the commit and the stable
-- index and in the log, and then the write of the same or a later index end well. The log then
-- ends in front of the failed entry, but the stable index is the later one; and the entry that the
-- next `Start` appends and hands over to be written, at the index of the failed one, already counts
-- as stable.
pub on_log_stable-late :
    (index later : ℕ) (command : String) (s : RaftState)
    → IsWellFormed s
    → is_leader s.identity ≡ true
    → s.commit_index < index
    → s.stable_log_index < index
    → index ≤ get_last_log_index s
    → index ≤ later
    → IsAhead index later command (on_log_stable true later (on_log_stable false index s))
unfolding start persist_state new_entry
on_log_stable-late index later command s v leads lo unstable hi le =
    let c = on_log_stable-failed index s v lo hi in
    let u = on_log_stable false index s in
    let t = on_log_stable true later u in
    let e = failed_stable index s in
    let r = on_log_stable-raised later u (omega arith) in
    let l : get_last_log_index t ≡ index - 1 = on_log_stable-last later u ∙ c.last in
    let role : is_leader t.identity ≡ true =
      ap is_leader (on_log_stable-role later u ∙ failed_role index s) ∙ leads in
    record {
      last = l;
      stable = r;
      entry = new_entry command t;
      handed_over = rw role refl;
      numbered = omega (arith, l);
      taken_for_stable = rw role (omega (arith, l, r));
    }
