-- ===== src/Tests/Election.antt =====
-- An election in a cluster of three.
use kvcache_raft.Common.{ℕ, ◌≡◌, ◌≤◌, ◌^◌, ◌-◌, refl, [], true, arith}
use kvcache_raft.Proto.{RequestVoteArgs, RequestVoteReply, normal}
use kvcache_raft.Persister.{Persister}
use kvcache_raft.Raft.Types.{is_leader, get_last_log_index, get_last_log_term}
use kvcache_raft.Raft.Saving.{persist_state, init}
use kvcache_raft.Raft.Election.{
  do_election, become_candidate, vote_args, other_peers, request_vote, decide_vote, step_down,
  is_up_to_date, handle_request_vote_response, become_leader,
}
use kvcache_raft.Raft.Terms.{saves}
use kvcache_raft.Cluster.Defs.{
  CallPhase, unsent, sent, answered, Cluster, begin_election, launch, contains, deliver, take_in,
  Step, times_out, votes_on, takes_in, moves, Reach, here, next,
}
use kvcache_raft.Counting.{total}
use kvcache_raft.Cluster.Invariant.{weight}
use kvcache_raft.Cluster.Safety.{IsStart, election_safety, leader_has_majority}

abbrev blank : Persister
blank = record {
  node_info = record {
    node_id = 0;
    role = 0;
    commit_index = 0;
    last_applied = 0;
    log_len = 0;
    term = 0;
    snapshot_index = 0;
    snapshot_term = 0;
    voted_for = 2 ^ 32 - 1;
    writed_index = 0;
  };
  snapshot = "";
  wal = [];
  compacted_snapshot_index = 0;
}

-- Three new nodes.
abbrev fresh : Cluster
fresh = record { nodes = λ i. init i 3 0 blank; calls = λ c t v. unsent; votes = λ c t. 0 }

fresh-IsStart : IsStart 3 fresh
unfolding init
fresh-IsStart = record {
  ids = λ i h. (refl, refl);
  silent = λ c t v. refl;
  no_votes = λ c t. refl;
  no_leader = λ i h. refl;
}

abbrev request : RequestVoteArgs
request = record { term = 1; candidate_id = 0; last_log_index = 0; last_log_term = 0 }

abbrev reply : RequestVoteReply
reply = record { term = 1; vote_granted = true; vote_state = normal }

-- Node 0 asks for votes, node 2 gives its vote, node 0 counts it.
abbrev asked : Cluster
asked = begin_election fresh 0 (do_election 9 (fresh.nodes 0))

abbrev voted : Cluster
voted = deliver asked 0 1 2 request (request_vote 10 request (asked.nodes 2))

abbrev won : Cluster
won =
    take_in voted 0 1 2
      (handle_request_vote_response request reply true (voted.nodes 0) (voted.votes 0 1))

abbrev later : Cluster
later = record won {
  nodes = kvcache_raft.Cluster.Defs.set_node won.nodes 0 (persist_state (won.nodes 0));
}

asked_2 : asked.calls 0 1 2 ≡ sent request
unfolding begin_election launch contains do_election vote_args become_candidate other_peers init
    get_last_log_index get_last_log_term kvcache_raft.Persister.Replay.replay
    kvcache_raft.Persister.Replay.replay_from kvcache_raft.Persister.Replay.read_wal
asked_2 = refl

answered_2 : voted.calls 0 1 2 ≡ answered request reply
unfolding begin_election deliver do_election become_candidate init request_vote decide_vote
    step_down is_up_to_date persist_state get_last_log_index get_last_log_term
    kvcache_raft.Persister.Replay.replay kvcache_raft.Persister.Replay.replay_from
    kvcache_raft.Persister.Replay.read_wal
answered_2 = refl

to_won : Reach 3 fresh won
to_won =
    next
      (next (next here (times_out 0 9 (omega arith)))
        (votes_on 0 1 2 10 request (omega arith) asked_2))
      (takes_in 0 1 2 request reply (omega arith) (omega arith) answered_2)

to_later : Reach 3 won later
to_later = next here (moves 0 (omega arith) saves)

leads_0 : is_leader (won.nodes 0).identity ≡ true
unfolding begin_election deliver take_in do_election become_candidate init request_vote decide_vote
    step_down is_up_to_date persist_state handle_request_vote_response become_leader vote_args
leads_0 = refl

leads_later : is_leader (later.nodes 0).identity ≡ true
unfolding persist_state
leads_later = leads_0

same_term : (won.nodes 0).current_term ≡ (later.nodes 0).current_term
unfolding persist_state
same_term = refl

election_safety_example : ◌≡◌ {A = ℕ} 0 0
election_safety_example =
    election_safety fresh-IsStart to_won to_later 0 0 (omega arith) (omega arith) leads_0
      leads_later same_term

leader_has_majority_example :
    (2 ≤ total 3 (λ v. weight (won.calls 0 (won.nodes 0).current_term v)))
    × (won.votes 0 (won.nodes 0).current_term
        ≡ total 3 (λ v. weight (won.calls 0 (won.nodes 0).current_term v)))
leader_has_majority_example = leader_has_majority fresh-IsStart to_won 0 (omega arith) leads_0
