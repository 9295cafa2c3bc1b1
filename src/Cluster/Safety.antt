-- ===== src/Cluster/Safety.antt =====
-- Runs of the cluster, and the elections of src/raft/raft.cc in them.
use kvcache_raft.Common.{
  ℕ, ◌+◌, ◌/◌, ◌≤◌, ◌<◌, ◌≡◌, sym, ap, ◌∙◌, subst, true, false, arith, ℕ_discrete,
}
use kvcache_raft.Raft.Types.{is_leader}
use kvcache_raft.Raft.Election.{majority}
use kvcache_raft.Cluster.Defs.{
  CallPhase, unsent, sent, answered, counted, closed, Cluster, Reach, here, next,
}
use kvcache_raft.Counting.{total, total_disjoint, total_zero}
use kvcache_raft.Cluster.Invariant.{Inv, HasVote, weight}
use kvcache_raft.Cluster.Kept.{Step-Inv, Step-votes}

weight-HasVote : (p : CallPhase) → 1 ≤ weight p → HasVote p
weight-HasVote unsent h = omega arith
weight-HasVote (sent q) h = omega arith
weight-HasVote (answered q r) h = absurd (omega arith)
weight-HasVote counted h = tt
weight-HasVote closed h = omega arith

weight-le : (p : CallPhase) → weight p ≤ 1
weight-le unsent = omega arith
weight-le (sent q) = omega arith
weight-le (answered q r) = omega arith
weight-le counted = omega arith
weight-le closed = omega arith

-- Two candidates with a majority each in one term are the same.
pub Inv-majority :
    {n : ℕ} {k : Cluster}
    → Inv n k
    → (c d t : ℕ) → majority n ≤ k.votes c t
    → majority n ≤ k.votes d t
    → c ≡ d
Inv-majority {n} {k} inv c d t hc hd = elim (ℕ_discrete c d) [
  | yes e ↦ e
  | no ne ↦
      let apart =
        total_disjoint n (λ v. weight (k.calls c t v)) (λ v. weight (k.calls d t v))
          λ v l. elim (ℕ_discrete (weight (k.calls c t v)) 1) [
            | no a ↦ omega (arith, weight-le (k.calls c t v), weight-le (k.calls d t v))
            | yes a ↦ elim (ℕ_discrete (weight (k.calls d t v)) 1) [
              | no b ↦ omega (arith, weight-le (k.calls c t v), weight-le (k.calls d t v))
              | yes b ↦ absurd (
                  ne (
                    inv.once c d t v l (weight-HasVote _ (omega arith))
                      (weight-HasVote _ (omega arith))))
            ]
          ] in
      absurd (omega (arith, apart, inv.tally c t, inv.tally d t))
]

-- A cluster in which no election has begun: every node knows its place, and nobody leads.
pub record IsStart (n : ℕ) (k : Cluster) : Type 0 where
  pub ids : (i : ℕ) → i < n → ((k.nodes i).id ≡ i) × ((k.nodes i).peers ≡ n)
  pub silent : (c t v : ℕ) → k.calls c t v ≡ unsent
  pub no_votes : (c t : ℕ) → k.votes c t ≡ 0
  pub no_leader : (i : ℕ) → i < n → is_leader (k.nodes i).identity ≡ false

IsStart-Inv : {n : ℕ} {k : Cluster} → IsStart n k → Inv n k
IsStart-Inv {n} {k} s = record {
  ids = s.ids;
  opened = λ c t v h. absurd (h (s.silent c t v));
  named = λ c t v. rw (s.silent c t v) tt;
  given = λ c t v l h. absurd (rw (s.silent c t v) at h);
  once = λ c d t v l h g. absurd (rw (s.silent c t v) at h);
  tally = λ c t.
      s.no_votes c t
      ∙ sym (total_zero n (λ v. weight (k.calls c t v)) (λ v l. ap weight (s.silent c t v)));
  led = λ i l h. let x = s.no_leader i l in cc;
}

Reach-Inv : {n : ℕ} {k m : Cluster} → Inv n k → Reach n k m → Inv n m
Reach-Inv inv here = inv
Reach-Inv inv (next r st) = Step-Inv st (Reach-Inv inv r)

Reach-votes :
    {n : ℕ} {k m : Cluster} → Inv n k → Reach n k m → (c t : ℕ) → k.votes c t ≤ m.votes c t
Reach-votes inv here c t = omega arith
Reach-votes inv (next r st) c t =
    let a = Reach-votes inv r c t in let b = Step-votes st (Reach-Inv inv r) c t in omega arith

-- In a cluster that starts with no election begun and no leader, and in which no node restarts,
-- two nodes that lead in the same term, the second at the same moment or later, are the same
-- node. The handlers run in any order; vote requests and replies may be lost, delayed and
-- reordered, requests also repeated, and all other messages are arbitrary.
pub election_safety :
    {n : ℕ} {k l m : Cluster}
    → IsStart n k
    → Reach n k l
    → Reach n l m
    → (i j : ℕ) → i < n
    → j < n
    → is_leader (l.nodes i).identity ≡ true
    → is_leader (m.nodes j).identity ≡ true
    → (l.nodes i).current_term ≡ (m.nodes j).current_term
    → i ≡ j
election_safety {n} {k} {l} {m} s r r' i j li lj hi hj e =
    let a = Reach-Inv (IsStart-Inv s) r in
    let b = Reach-Inv a r' in
    let x = a.led i li hi in
    let y = Reach-votes a r' i (l.nodes i).current_term in
    let z = b.led j lj hj in
    Inv-majority b i j (m.nodes j).current_term
      (subst (λ t. majority n ≤ m.votes i t) e (omega arith)) z

-- In every run of such a cluster, the vote counter that a leader has for its term is the number
-- of peers whose vote was counted, each once and the node's own included, and it is more than
-- half of the cluster.
pub leader_has_majority :
    {n : ℕ} {k l : Cluster}
    → IsStart n k
    → Reach n k l
    → (i : ℕ) → i < n
    → is_leader (l.nodes i).identity ≡ true
    → (n / 2 + 1 ≤ total n (λ v. weight (l.calls i (l.nodes i).current_term v)))
      × (l.votes i (l.nodes i).current_term
          ≡ total n (λ v. weight (l.calls i (l.nodes i).current_term v)))
leader_has_majority s r i li h =
    let a = Reach-Inv (IsStart-Inv s) r in
    let x = a.led i li h in let y = a.tally i _ in (omega arith, y)
