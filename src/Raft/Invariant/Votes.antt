-- ===== src/Raft/Invariant/Votes.antt =====
-- The election handlers of src/raft/raft.cc and the invariant.
use kvcache_raft.Common.{ℕ, suc, ◌+◌, ◌≡◌, refl, ap, List, [], ◌∷◌, Bool, arith, length}
use kvcache_raft.Proto.{RequestVoteArgs, RequestVoteReply}
use kvcache_raft.Raft.Types.{RaftState, get_last_log_index}
use kvcache_raft.Raft.Saving.{persist_state}
use kvcache_raft.Raft.Election.{
  do_election, become_candidate, request_vote, decide_vote, step_down, handle_request_vote_response,
  become_leader, assign_others,
}
use kvcache_raft.Raft.Invariant.WellFormed.{IsWellFormed}

pub persist_state-IsWellFormed : {s : RaftState} → IsWellFormed s → IsWellFormed (persist_state s)
unfolding persist_state
persist_state-IsWellFormed v = ground arith

pub step_down-IsWellFormed :
    {s : RaftState} (term : ℕ) → IsWellFormed s → IsWellFormed (step_down term s)
unfolding step_down
step_down-IsWellFormed term v = ground arith

pub length-assign_others : (me v i : ℕ) (xs : List ℕ) → length (assign_others me v i xs) ≡ length xs
unfolding assign_others
length-assign_others me v i [] = refl
length-assign_others me v i (x ∷ xs) = ap suc (length-assign_others me v (i + 1) xs)

become_leader-IsWellFormed : {s : RaftState} → IsWellFormed s → IsWellFormed (become_leader s)
unfolding become_leader
become_leader-IsWellFormed {s} v = ground (
  arith,
  length-assign_others s.id (get_last_log_index s + 1) 0 s.next_index,
  length-assign_others s.id 0 0 s.match_index,
)

pub do_election-IsWellFormed :
    {s : RaftState} (now : ℕ) → IsWellFormed s → IsWellFormed (do_election now s).0
unfolding do_election become_candidate persist_state
do_election-IsWellFormed now v = ground arith

decide_vote-IsWellFormed :
    {s : RaftState} (now : ℕ) (request : RequestVoteArgs)
    → IsWellFormed s
    → IsWellFormed (decide_vote now request s).0
unfolding decide_vote persist_state
decide_vote-IsWellFormed now request v = ground arith

pub request_vote-IsWellFormed :
    {s : RaftState} (now : ℕ) (request : RequestVoteArgs)
    → IsWellFormed s
    → IsWellFormed (request_vote now request s).0
unfolding request_vote
request_vote-IsWellFormed {s} now request v = ground (
  arith,
  decide_vote-IsWellFormed now request v,
  decide_vote-IsWellFormed now request
      (persist_state-IsWellFormed (step_down-IsWellFormed request.term v)),
)

pub handle_request_vote_response-IsWellFormed :
    {s : RaftState} (args : RequestVoteArgs) (reply : RequestVoteReply) (reached : Bool) (n : ℕ)
    → IsWellFormed s
    → IsWellFormed (handle_request_vote_response args reply reached s n).0
unfolding handle_request_vote_response
handle_request_vote_response-IsWellFormed args reply reached n v = ground (
  arith,
  persist_state-IsWellFormed (step_down-IsWellFormed reply.term v),
  persist_state-IsWellFormed (become_leader-IsWellFormed v),
)
