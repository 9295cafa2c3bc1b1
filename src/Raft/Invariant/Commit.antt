-- ===== src/Raft/Invariant/Commit.antt =====
-- `advanceCommitIndex` of src/raft/raft.cc against a description of the index it looks for.
use kvcache_raft.Common.{
  ℕ, zero, suc, ◌+◌, ◌*◌, ◌≤◌, ◌<◌, ◌≡◌, ◌↔◌, refl, sym, ap, true, List, [], ◌∷◌, Option, none,
  some, get_elem?, if◌then◌else◌, ℕ_discrete, subst, arith, length, leb, ◌==◌, Returns, Returns-ok,
  ok, Bool-cases, inl, inr, ◌⊎◌, min,
}
use kvcache_raft.Counting.{total, total_zero, total_eq, total_from_front}
use kvcache_raft.Proto.{LogEntry}
use kvcache_raft.Raft.Types.{RaftState, get_last_log_index, log_at}
use kvcache_raft.Raft.Replication.{count_others, is_replicated, advance_from, advance_commit_index}
use kvcache_raft.Raft.Invariant.Contiguous.{Contiguous}
use kvcache_raft.Raft.Invariant.WellFormed.{
  IsWellFormed, get_last_log_index-Contiguous, log_at-Contiguous,
}

-- 1 for a peer other than the node whose matchIndex, `m`, is not below `index`.
abbrev pub holder : ℕ → ℕ → ℕ → Option ℕ → ℕ
holder me index peer none = 0
holder me index peer (some m) = if peer == me then 0 else if leb index m then 1 else 0

-- The node and the other peers that hold the log up to `index` are more than half of the peers.
abbrev pub HeldByMajority : RaftState → ℕ → Type 0
HeldByMajority s index =
    s.peers < 2 * (total s.peers (λ v. holder s.id index v (get_elem? s.match_index v)) + 1)

count_others-total :
    (me index i : ℕ) (ms : List ℕ)
    → count_others me index i ms ≡ total (length ms) (λ v. holder me index (i + v) (get_elem? ms v))
unfolding count_others
count_others-total me index i [] = sym (total_zero 0 (λ v. 0) (λ v lt. refl))
count_others-total me index i (m ∷ ms) =
    let front =
      total_from_front (length ms) (λ v. holder me index (i + v) (get_elem? (m ∷ ms) v)) in
    let same =
      total_eq (length ms) (λ v. holder me index (i + 1 + v) (get_elem? ms v))
        (λ v. holder me index (i + suc v) (get_elem? ms v))
        (λ v _. ap (λ w. holder me index w (get_elem? ms v)) (omega arith)) in
    let rest = count_others-total me index (i + 1) ms in
    let at : holder me index (i + 0) (some m) ≡ holder me index i (some m) =
      ap (λ w. holder me index w (some m)) (omega arith) in
    let all : total (suc (length ms)) (λ v. holder me index (i + v) (get_elem? (m ∷ ms) v))
        ≡ holder me index i (some m) + count_others me index (i + 1) ms =
      omega (arith, front, same, rest, at) in
    rw all (ground arith)

is_replicated-HeldByMajority :
    (s : RaftState) (index : ℕ)
    → length s.match_index ≡ s.peers
    → (is_replicated s index ≡ true) ↔ HeldByMajority s index
unfolding is_replicated
is_replicated-HeldByMajority s index size =
    let e = count_others-total s.id index 0 s.match_index in (λ h. ground arith, λ h. ground arith)

-- More than half of the peers hold the entry at `i`, and it is of the leader's term.
abbrev pub CanCommit : RaftState → ℕ → Type 0
CanCommit s i =
    HeldByMajority s i × ((e : LogEntry) × (log_at s i ≡ ok e) × (e.log_term ≡ s.current_term))

-- `c` is the greatest index up to `top` that may be committed, or the old commit index where there
-- is none above that.
pub record IsAdvance (s : RaftState) (top c : ℕ) : Type 0 where
  pub grows : s.commit_index ≤ c
  pub justified : (c ≡ s.commit_index) ⊎ ((c ≤ top) × CanCommit s c)
  pub greatest : (i : ℕ) → c < i → i ≤ top → ¬ CanCommit s i

IsAdvance-suc :
    (s : RaftState) (k c : ℕ) → IsAdvance s k c → ¬ CanCommit s (suc k) → IsAdvance s (suc k) c
IsAdvance-suc s k c a stop = record {
  grows = a.grows;
  justified = elim a.justified [ inl e ↦ inl e | inr (b, can) ↦ inr (omega arith, can) ];
  greatest = λ i lo hi can. elim (ℕ_discrete i (suc k)) [
    | yes e ↦ stop (subst (CanCommit s) e can)
    | no n ↦ a.greatest i lo (omega arith) can
  ];
}

pub advance_from-IsAdvance :
    (s : RaftState) (k : ℕ)
    → Contiguous s.last_snapshot_index s.logs
    → s.last_snapshot_index ≤ s.commit_index
    → k ≤ s.last_snapshot_index + length s.logs
    → length s.match_index ≡ s.peers
    → Returns (IsAdvance s k) (advance_from s k)
unfolding advance_from
advance_from-IsAdvance s zero c lo hi size = record {
  grows = omega arith;
  justified = inl refl;
  greatest = λ i p q. absurd (omega arith);
}
advance_from-IsAdvance s (suc k) c lo hi size = elim (Bool-cases (leb (suc k) s.commit_index)) [
  | inl low ↦ rw low (record {
    grows = omega arith;
    justified = inl refl;
    greatest = λ i p q. absurd (ground arith);
  })
  | inr high ↦
      let (x, ex, a) =
        Returns-ok (IsAdvance s k) _ (advance_from-IsAdvance s k c lo (omega arith) size) in
      elim (Bool-cases (is_replicated s (suc k))) [
        | inr few ↦
            rw (high, few, ex)
              (IsAdvance-suc s k x a
                (λ can. let z = (is_replicated-HeldByMajority s (suc k) size).1 can.0 in cc))
        | inl many ↦
            let (e, p, q, r) = log_at-Contiguous s (suc k) c (ground arith) hi in
            elim (Bool-cases (e.log_term == s.current_term)) [
              | inl own ↦
                  rw (high, many, p, own)
                    (record {
                      grows = ground arith;
                      justified = inr (
                        omega arith,
                        (
                          (is_replicated-HeldByMajority s (suc k) size).0 many,
                          (e, p, ground arith),
                        ),
                      );
                      greatest = λ i lt le. absurd (omega arith);
                    })
              | inr other ↦
                  rw (high, many, p, other, ex) (IsAdvance-suc s k x a (λ can. ground arith))
            ]
      ]
]

-- On a well-formed state `advanceCommitIndex` returns, and changes nothing but the commit index,
-- which does not fall. The new one is the old one, or the index of an entry of the node's term,
-- not above the last and the stable index, that is held by more than half of the peers, where the
-- node counts and any other peer counts if its matchIndex reaches that index; and no greater index
-- is so.
pub advance_commit_index-IsAdvance :
    (s : RaftState)
    → IsWellFormed s
    → (c : ℕ) × (advance_commit_index s ≡ ok (record s { commit_index = c }))
      × IsAdvance s (min (get_last_log_index s) s.stable_log_index) c
unfolding advance_commit_index
advance_commit_index-IsAdvance s v =
    let l = get_last_log_index-Contiguous s v.contiguous in
    let (c, e, a) = Returns-ok (IsAdvance s (min (get_last_log_index s) s.stable_log_index)) _ (
      advance_from-IsAdvance s (min (get_last_log_index s) s.stable_log_index) v.contiguous
        (omega (arith, v.snapshot_le_applied, v.applied_le_commit)) (omega arith) v.match_size) in
    (c, rw e refl, a)

pub advance_commit_index-IsWellFormed :
    (s : RaftState) → IsWellFormed s → Returns IsWellFormed (advance_commit_index s)
advance_commit_index-IsWellFormed s v =
    let (c, e, a) = advance_commit_index-IsAdvance s v in
    let l = get_last_log_index-Contiguous s v.contiguous in
    let g = a.grows in
    let j : (c ≡ s.commit_index) ⊎ (c ≤ min (get_last_log_index s) s.stable_log_index) =
      elim a.justified [ inl x ↦ inl x | inr (b, can) ↦ inr b ] in
    rw e (
      ground (
        arith, v.contiguous, v.snapshot_le_applied, v.applied_le_commit, v.commit_le_last,
        v.next_size, v.match_size,
      ))
