-- ===== src/Cluster/Invariant.antt =====
-- Who has voted for whom, and the counters `votedNum` of src/raft/raft.cc.
use kvcache_raft.Common.{ℕ, ◌≤◌, ◌<◌, ◌≡◌, ◌≢◌, true, some}
use kvcache_raft.Raft.Types.{is_leader}
use kvcache_raft.Raft.Election.{majority}
use kvcache_raft.Cluster.Defs.{CallPhase, unsent, sent, answered, counted, Cluster}
use kvcache_raft.Counting.{total}

-- The call has the peer's vote.
abbrev pub HasVote : CallPhase → Type 0
HasVote counted = Unit
HasVote (answered q r) = r.vote_granted ≡ true
HasVote _ = ⊥

-- A request names the election that it belongs to.
abbrev pub NamesElection : ℕ → ℕ → CallPhase → Type 0
NamesElection c t (sent q) = (q.term ≡ t) × (q.candidate_id ≡ c)
NamesElection c t (answered q r) = (q.term ≡ t) × (q.candidate_id ≡ c)
NamesElection c t _ = Unit

abbrev pub weight : CallPhase → ℕ
weight counted = 1
weight _ = 0

pub record Inv (n : ℕ) (k : Cluster) : Type 0 where
  pub ids : (i : ℕ) → i < n → ((k.nodes i).id ≡ i) × ((k.nodes i).peers ≡ n)
  pub opened : (c t v : ℕ) → k.calls c t v ≢ unsent → (c < n) × (t ≤ (k.nodes c).current_term)
  pub named : (c t v : ℕ) → NamesElection c t (k.calls c t v)
  pub given :
      (c t v : ℕ)
      → v < n
      → HasVote (k.calls c t v)
      → (t ≤ (k.nodes v).current_term)
        × ((k.nodes v).current_term ≡ t → (k.nodes v).vote_for_id ≡ some c)
  pub once : (c d t v : ℕ) → v < n → HasVote (k.calls c t v) → HasVote (k.calls d t v) → c ≡ d
  pub tally : (c t : ℕ) → k.votes c t ≡ total n (λ v. weight (k.calls c t v))
  pub led :
      (i : ℕ)
      → i < n
      → is_leader (k.nodes i).identity ≡ true
      → majority n ≤ k.votes i (k.nodes i).current_term
