-- ===== src/Raft/Election.antt =====
-- src/raft/raft.cc: `doElection`, `RequestVote`, `handleRequestVoteResponse`.
use kvcache_raft.Common.{
  ℕ, zero, suc, ◌+◌, ◌/◌, List, [], ◌∷◌, Option, none, some, Bool, true, false, ◌&&◌, ◌||◌, not,
  ltb, leb, ◌==◌, if◌then◌else◌,
}
use kvcache_raft.Proto.{RequestVoteArgs, RequestVoteReply, Vote, voted, normal, expired}
use kvcache_raft.Raft.Types.{
  follower, leader, candidate, is_leader, is_candidate, RaftState, get_last_log_index,
  get_last_log_term,
}
use kvcache_raft.Raft.Saving.{persist_state}

-- The peers but `me`, counted up from `i`: the loop `for (i = 0; i < m_peers.size(); i++)` with
-- its `continue`.
unfoldable pub other_peers : ℕ → ℕ → ℕ → List ℕ
other_peers me i zero = []
other_peers me i (suc n) = let rest = other_peers me (i + 1) n in if i == me then rest else i ∷ rest

-- The request that goes to every peer.
unfoldable pub vote_args : RaftState → RequestVoteArgs
vote_args s = record {
  term = s.current_term;
  candidate_id = s.id;
  last_log_index = get_last_log_index s;
  last_log_term = get_last_log_term s;
}

-- A candidate of the next term, with its own vote.
unfoldable pub become_candidate : ℕ → RaftState → RaftState
become_candidate now s = record s {
  identity = candidate;
  current_term = s.current_term + 1;
  vote_for_id = some s.id;
  last_election_time = now;
}

-- `doElection`: the new state, and the request with the peers that it is sent to. The vote count
-- of the election starts at 1.
unfoldable pub do_election : ℕ → RaftState → RaftState × Option (RequestVoteArgs × List ℕ)
do_election now s =
    let c = become_candidate now s in
    if is_leader s.identity
    then (s, none)
    else (persist_state c, some (vote_args c, other_peers s.id 0 s.peers))

-- A follower of a later term, which has not voted in it.
unfoldable pub step_down : ℕ → RaftState → RaftState
step_down term s = record s { current_term = term; identity = follower; vote_for_id = none }

-- The candidate's log is at least as new as that of the node.
unfoldable pub is_up_to_date : RequestVoteArgs → RaftState → Bool
is_up_to_date request s =
    ltb (get_last_log_term s) request.last_log_term
    || (request.last_log_term == get_last_log_term s
        && leb (get_last_log_index s) request.last_log_index)

-- The node has voted for another candidate in its term.
abbrev pub voted_for_other : Option ℕ → ℕ → Bool
voted_for_other none c = false
voted_for_other (some v) c = not (v == c)

abbrev refuse_vote : RaftState → Vote → RequestVoteReply
refuse_vote s v = record { term = s.current_term; vote_granted = false; vote_state = v }

-- The part of `RequestVote` after the node has caught up with the request's term.
unfoldable pub decide_vote : ℕ → RequestVoteArgs → RaftState → RaftState × RequestVoteReply
decide_vote now request s =
    let granted = record s { vote_for_id = some request.candidate_id; last_election_time = now } in
    if not (is_up_to_date request s)
    then (s, refuse_vote s voted)
    else if voted_for_other s.vote_for_id request.candidate_id
    then (persist_state s, refuse_vote s voted)
    else (
      persist_state granted,
      record { term = s.current_term; vote_granted = true; vote_state = normal },
    )

-- `RequestVote`
unfoldable pub request_vote : ℕ → RequestVoteArgs → RaftState → RaftState × RequestVoteReply
request_vote now request s =
    if ltb request.term s.current_term
    then (s, refuse_vote s expired)
    else if ltb s.current_term request.term
    then decide_vote now request (persist_state (step_down request.term s))
    else decide_vote now request s

-- `v` at every peer but `me`, for the vectors that are indexed by peer.
unfoldable pub assign_others : ℕ → ℕ → ℕ → List ℕ → List ℕ
assign_others me v i [] = []
assign_others me v i (x ∷ xs) = (if i == me then x else v) ∷ assign_others me v (i + 1) xs

-- The winner of an election.
unfoldable pub become_leader : RaftState → RaftState
become_leader s = record s {
  identity = leader;
  next_index = assign_others s.id (get_last_log_index s + 1) 0 s.next_index;
  match_index = assign_others s.id 0 0 s.match_index;
}

-- `m_peers.size() / 2 + 1`
abbrev pub majority : ℕ → ℕ
majority peers = peers / 2 + 1

-- `handleRequestVoteResponse`: the state and the vote count of the election. The `assert`s repeat
-- the tests before them.
unfoldable pub handle_request_vote_response :
    RequestVoteArgs → RequestVoteReply → Bool → RaftState → ℕ → RaftState × ℕ
handle_request_vote_response args reply reached s voted_num =
    if not reached
    then (s, voted_num)
    else if ltb s.current_term reply.term
    then (persist_state (step_down reply.term s), voted_num)
    else if ltb reply.term s.current_term
    then (s, voted_num)
    else if not (is_candidate s.identity) || not (args.term == s.current_term)
    then (s, voted_num)
    else if not reply.vote_granted
    then (s, voted_num)
    else if leb (majority s.peers) (voted_num + 1)
    then (persist_state (become_leader s), voted_num + 1)
    else (s, voted_num + 1)
