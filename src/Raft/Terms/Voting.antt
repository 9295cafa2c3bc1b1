-- ===== src/Raft/Terms/Voting.antt =====
-- The election handlers of src/raft/raft.cc, their terms and votes.
use kvcache_raft.Common.{ℕ, ◌+◌, ◌*◌, ◌<◌, ◌≡◌, Bool, true, some, arith, ◌⊎◌}
use kvcache_raft.Proto.{RequestVoteArgs, RequestVoteReply}
use kvcache_raft.Raft.Types.{RaftState, candidate, is_leader}
use kvcache_raft.Raft.Saving.{persist_state}
use kvcache_raft.Raft.Election.{
  request_vote, decide_vote, step_down, become_leader, handle_request_vote_response,
}
use kvcache_raft.Raft.Terms.Defs.{KeepsVote}

-- The voter's side of a granted vote.
pub record IsVoteFor (q : RequestVoteArgs) (t : RaftState) : Type 0 where
  pub term : t.current_term ≡ q.term
  pub vote : t.vote_for_id ≡ some q.candidate_id

decide_vote-granted :
    (now : ℕ) (q : RequestVoteArgs) (s : RaftState)
    → s.current_term ≡ q.term
    → (decide_vote now q s).1.vote_granted ≡ true
    → IsVoteFor q (decide_vote now q s).0
unfolding decide_vote persist_state
decide_vote-granted now q s e h = ground arith

-- A vote that `RequestVote` grants is on record in the state that it leaves: the node is in the
-- request's term, and `m_voteForId` is the candidate.
pub request_vote-granted :
    (now : ℕ) (q : RequestVoteArgs) (s : RaftState)
    → (request_vote now q s).1.vote_granted ≡ true
    → IsVoteFor q (request_vote now q s).0
unfolding request_vote persist_state step_down
request_vote-granted now q s h = ground (
  arith,
  decide_vote-granted now q s,
  decide_vote-granted now q (persist_state (step_down q.term s)),
)

-- A granted vote of the node's own term, to the request of that term, that reaches a candidate.
abbrev pub IsOwnVote : RequestVoteArgs → RequestVoteReply → Bool → RaftState → Type 0
IsOwnVote q r reached s =
    (reached ≡ true)
    × (s.identity ≡ candidate)
    × (q.term ≡ s.current_term)
    × (r.term ≡ s.current_term)
    × (r.vote_granted ≡ true)

-- A reply leads the node to count a vote, or it does not; it becomes leader by a counted vote with
-- which the votes are more than half of the peers, and only by one, in the term of the election.
pub record Counts (q : RequestVoteArgs) (r : RequestVoteReply) (reached : Bool) (s : RaftState)
    (n : ℕ) (t : RaftState) (m : ℕ) : Type 0 where
  pub keeps : KeepsVote s t
  pub counted : ((m ≡ n) × (¬ IsOwnVote q r reached s)) ⊎ ((m ≡ n + 1) × IsOwnVote q r reached s)
  pub leads :
      is_leader t.identity ≡ true
      → ((is_leader s.identity ≡ true) × (t.current_term ≡ s.current_term))
        ⊎ ((m ≡ n + 1) × (s.peers < 2 * m) × (t.current_term ≡ q.term))
  pub wins : m ≡ n + 1 → s.peers < 2 * m → is_leader t.identity ≡ true

-- `handleRequestVoteResponse` lets no term fall and changes no vote within its term. The counter
-- grows by one exactly for a granted vote of the node's own term that reaches it as a candidate in
-- reply to a request of that term, and else stays. A counted vote that makes the counter more than
-- half of the number of peers makes the node leader; and a node leads afterwards only if it has led
-- before in the same term, or by such a vote, and then in the term of the election.
pub handle_request_vote_response-Counts :
    (q : RequestVoteArgs) (r : RequestVoteReply) (reached : Bool) (s : RaftState) (n : ℕ)
    → let x = handle_request_vote_response q r reached s n in Counts q r reached s n x.0 x.1
unfolding handle_request_vote_response persist_state step_down become_leader
handle_request_vote_response-Counts q r reached s n = record {
  keeps = record {
    same_id = ground arith;
    same_peers = ground arith;
    term_grows = ground arith;
    vote_kept = λ e c v. ground arith;
  };
  counted = ground arith;
  leads = λ l. ground arith;
  wins = λ e h. ground arith;
}
