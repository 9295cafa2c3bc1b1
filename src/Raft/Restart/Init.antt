-- ===== src/Raft/Restart/Init.antt =====
-- `init` of src/raft/raft.cc on what `persistState` has written.
use kvcache_raft.Common.{
  ℕ, zero, suc, ◌+◌, ◌-◌, ◌%◌, ◌^◌, ◌≤◌, ◌<◌, ◌≡◌, refl, ap, ◌∙◌, false, Option, some, none, inl,
  inr, Bool-cases, arith, length, ltb, ◌==◌,
}
use kvcache_raft.Persister.{Persister, NodeInfo, save_raft_state, compact_wal}
use kvcache_raft.Persister.Replay.{replay}
use kvcache_raft.Raft.Types.{RaftState}
use kvcache_raft.Raft.Saving.{persist_state, init, node_info_of, zeros, read_vote, vote_code}
use kvcache_raft.Raft.Invariant.WellFormed.{IsWellFormed}
use kvcache_raft.Raft.Restart.Replay.{replay-Contiguous, replay-compact_wal}

length-zeros : (n : ℕ) → length (zeros n) ≡ n
unfolding zeros
length-zeros zero = refl
length-zeros (suc n) = omega (arith, length-zeros n)

-- The numbers that the state file holds in 32 bits, and a vote that is not read back as -1.
pub record FitsDisk (s : RaftState) : Type 0 where
  pub term : s.current_term < 2 ^ 32
  pub snapshot_index : s.last_snapshot_index < 2 ^ 32
  pub snapshot_term : s.last_snapshot_term < 2 ^ 32
  pub commit : s.commit_index < 2 ^ 32
  pub vote : (c : ℕ) → s.vote_for_id ≡ some c → c < 2 ^ 32 - 1

-- What a restart keeps.
pub record IsRestartOf (s t : RaftState) : Type 0 where
  pub term : t.current_term ≡ s.current_term
  pub vote : t.vote_for_id ≡ s.vote_for_id
  pub snapshot_index : t.last_snapshot_index ≡ s.last_snapshot_index
  pub snapshot_term : t.last_snapshot_term ≡ s.last_snapshot_term
  pub commit : t.commit_index ≡ s.commit_index
  pub log : t.logs ≡ replay s.last_snapshot_index s.persister.wal

u32_small : (n : ℕ) → n < 2 ^ 32 → n % 2 ^ 32 ≡ n
u32_small n h = omega arith

read_vote-vote_code :
    (v : Option ℕ) → ((c : ℕ) → v ≡ some c → c < 2 ^ 32 - 1) → read_vote (vote_code v) ≡ v
read_vote-vote_code none h = refl
read_vote-vote_code (some c) h =
    let lt = h c refl in
    let m : c % 2 ^ 32 ≡ c = omega arith in
    let n : (c == 2 ^ 32 - 1) ≡ false = ground arith in rw (m, n) refl

save_raft_state-replay :
    (p : Persister)
    → ((save_raft_state p).node_info ≡ p.node_info)
      × (replay p.node_info.snapshot_index (save_raft_state p).wal
          ≡ replay p.node_info.snapshot_index p.wal)
unfolding save_raft_state compact_wal
save_raft_state-replay p =
    elim (Bool-cases (ltb p.compacted_snapshot_index p.node_info.snapshot_index)) [
      | inl behind ↦ rw behind (refl, replay-compact_wal p.node_info.snapshot_index p)
      | inr done ↦ rw done (refl, refl)
    ]

-- A node that starts again on what `persistState` has written has its term, its vote, its snapshot
-- index and term, and its commit index as before, if they fit into 32 bits and the vote is not the
-- number that stands for -1; its log is the one that is read from the write-ahead log.
pub init-persist_state :
    (peers now : ℕ) (s : RaftState)
    → FitsDisk s
    → IsRestartOf s (init s.id peers now (persist_state s).persister)
unfolding init persist_state
init-persist_state peers now s f =
    let P : Persister = record (s.persister) { node_info = node_info_of s } in
    let (a, b) = save_raft_state-replay P in
    let i : s.last_snapshot_index % 2 ^ 32 ≡ s.last_snapshot_index = u32_small _ f.snapshot_index in
    record {
      term = ap (λ (z : NodeInfo). z.term) a ∙ u32_small _ f.term;
      vote =
          ap (λ (z : NodeInfo). read_vote z.voted_for) a ∙ read_vote-vote_code s.vote_for_id f.vote;
      snapshot_index = ap (λ (z : NodeInfo). z.snapshot_index) a ∙ i;
      snapshot_term = ap (λ (z : NodeInfo). z.snapshot_term) a ∙ u32_small _ f.snapshot_term;
      commit = ap (λ (z : NodeInfo). z.commit_index) a ∙ u32_small _ f.commit;
      log =
          ap (λ (z : NodeInfo). replay z.snapshot_index (save_raft_state P).wal) a
          ∙ b
          ∙ ap (λ z. replay z s.persister.wal) i;
    }

-- `init` makes a well-formed state, if the commit index on disk lies between the snapshot index and
-- the end of the log that is read from the write-ahead log, whatever its records are.
pub init-IsWellFormed :
    (me peers now : ℕ) (p : Persister)
    → p.node_info.snapshot_index ≤ p.node_info.commit_index
    → p.node_info.commit_index
      ≤ p.node_info.snapshot_index + length (replay p.node_info.snapshot_index p.wal)
    → IsWellFormed (init me peers now p)
unfolding init
init-IsWellFormed me peers now p lo hi = record {
  contiguous = replay-Contiguous p.node_info.snapshot_index p.wal;
  snapshot_le_applied = ground arith;
  applied_le_commit = ground arith;
  commit_le_last = hi;
  next_size = length-zeros peers;
  match_size = length-zeros peers;
}
