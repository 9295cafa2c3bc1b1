-- ===== src/Cluster/Defs.antt =====
-- The state of the cluster and its steps (`sendRequestVote` and its handlers, src/raft/raft.cc).
use kvcache_raft.Common.{
  ℕ, ◌<◌, ◌≡◌, ◌≢◌, List, [], ◌∷◌, Bool, true, false, Option, none, some, ◌&&◌, ◌||◌, ◌==◌,
  if◌then◌else◌,
}
use kvcache_raft.Proto.{RequestVoteArgs, RequestVoteReply}
use kvcache_raft.Raft.Types.{RaftState}
use kvcache_raft.Raft.Election.{do_election, request_vote, handle_request_vote_response}
use kvcache_raft.Raft.Terms.{LocalStep}

-- One call of `RequestVote`, from the candidate's thread: made, answered by the peer, and taken in
-- by `handleRequestVoteResponse`, which counts the vote or does not. A lost call ends as `closed`.
-- The candidate's own vote is `counted` from the start.
pub data CallPhase : Type 0 where
  unsent : CallPhase
  sent : RequestVoteArgs → CallPhase
  answered : RequestVoteArgs → RequestVoteReply → CallPhase
  counted : CallPhase
  closed : CallPhase

-- `calls c t v` is the call of candidate `c` to peer `v` for term `t`; `votes c t` is the shared
-- counter `votedNum` of that election.
pub record Cluster : Type 0 where
  pub nodes : ℕ → RaftState
  pub calls : ℕ → ℕ → ℕ → CallPhase
  pub votes : ℕ → ℕ → ℕ

abbrev pub set_node : (ℕ → RaftState) → ℕ → RaftState → ℕ → RaftState
set_node f i s j = if i == j then s else f j

abbrev pub set_votes : (ℕ → ℕ → ℕ) → ℕ → ℕ → ℕ → ℕ → ℕ → ℕ
set_votes f c t n d u = if c == d && t == u then n else f d u

abbrev pub set_call : (ℕ → ℕ → ℕ → CallPhase) → ℕ → ℕ → ℕ → CallPhase → ℕ → ℕ → ℕ → CallPhase
set_call f c t v p d u w = if c == d && (t == u && v == w) then p else f d u w

unfoldable pub contains : List ℕ → ℕ → Bool
contains [] a = false
contains (x ∷ xs) a = x == a || contains xs a

-- The calls of a new election: to the listed peers, and the candidate's own vote.
unfoldable pub launch :
    (ℕ → ℕ → ℕ → CallPhase) → ℕ → RequestVoteArgs → List ℕ → ℕ → ℕ → ℕ → CallPhase
launch f c q peers d u w =
    if c == d && q.term == u
    then (if c == w then counted else if contains peers w then sent q else unsent)
    else f d u w

-- What `doElection` starts.
unfoldable pub begin_election :
    Cluster → ℕ → RaftState × Option (RequestVoteArgs × List ℕ) → Cluster
begin_election k i (s, none) = record k { nodes = set_node k.nodes i s }
begin_election k i (s, some (q, peers)) = record {
  nodes = set_node k.nodes i s;
  calls = launch k.calls i q peers;
  votes = set_votes k.votes i q.term 1;
}

-- The call after its reply has been taken in.
abbrev pub taken_in : ℕ → ℕ → CallPhase
taken_in before after = if before == after then closed else counted

-- Peer `v` has handled the request.
unfoldable pub deliver :
    Cluster → ℕ → ℕ → ℕ → RequestVoteArgs → RaftState × RequestVoteReply → Cluster
deliver k c t v q x = record k {
  nodes = set_node k.nodes v x.0;
  calls = set_call k.calls c t v (answered q x.1);
}

-- The candidate has handled the reply.
unfoldable pub take_in : Cluster → ℕ → ℕ → ℕ → RaftState × ℕ → Cluster
take_in k c t v x = record {
  nodes = set_node k.nodes c x.0;
  calls = set_call k.calls c t v (taken_in (k.votes c t) x.1);
  votes = set_votes k.votes c t x.1;
}

-- `n` nodes, in any order of steps.
pub data Step (n : ℕ) (k : Cluster) : Cluster → Type 0 where
  times_out : (i now : ℕ) → i < n → Step n k (begin_election k i (do_election now (k.nodes i)))
  votes_on :
      (c t v now : ℕ) (q : RequestVoteArgs)
      → v < n
      → k.calls c t v ≡ sent q
      → Step n k (deliver k c t v q (request_vote now q (k.nodes v)))
  takes_in :
      (c t v : ℕ) (q : RequestVoteArgs) (r : RequestVoteReply)
      → c < n
      → v < n
      → k.calls c t v ≡ answered q r
      → Step n k (take_in k c t v (handle_request_vote_response q r true (k.nodes c) (k.votes c t)))
  loses :
      (c t v : ℕ)
      → v < n
      → k.calls c t v ≢ counted
      → k.calls c t v ≢ unsent
      → Step n k (record k { calls = set_call k.calls c t v closed })
  moves :
      (i : ℕ) {s : RaftState}
      → i < n
      → LocalStep (k.nodes i) s
      → Step n k (record k { nodes = set_node k.nodes i s })

pub data Reach (n : ℕ) (k : Cluster) : Cluster → Type 0 where
  here : Reach n k k
  next : {l m : Cluster} → Reach n k l → Step n l m → Reach n k m
