-- ===== src/Cluster/Kept.antt =====
-- The steps of the cluster and the invariant, taken together.
use kvcache_raft.Common.{
  ℕ, ◌+◌, ◌≤◌, ◌<◌, ◌≡◌, ◌≢◌, refl, sym, ◌∙◌, subst, ap, true, false, some, none, arith, ◌⊎◌, inl,
  inr, Bool-cases,
}
use kvcache_raft.Proto.{RequestVoteArgs, RequestVoteReply}
use kvcache_raft.Raft.Types.{RaftState, is_leader}
use kvcache_raft.Raft.Saving.{persist_state}
use kvcache_raft.Raft.Election.{
  majority, do_election, request_vote, handle_request_vote_response, vote_args, other_peers,
  become_candidate,
}
use kvcache_raft.Raft.Terms.{KeepsVote, KeepsOrder}
use kvcache_raft.Raft.Terms.Appends.{KeepsOrder-same}
use kvcache_raft.Raft.Terms.Handlers.{LocalStep-KeepsOrder, request_vote-KeepsOrder}
use kvcache_raft.Raft.Terms.Voting.{request_vote-granted, handle_request_vote_response-Counts}
use kvcache_raft.Cluster.Defs.{
  CallPhase, unsent, sent, answered, counted, closed, Cluster, Step, times_out, votes_on, takes_in,
  loses, moves, deliver, take_in, taken_in, begin_election, set_node, set_call, set_votes,
}
use kvcache_raft.Counting.{total_zero}
use kvcache_raft.Cluster.Invariant.{Inv, HasVote, weight, NamesElection}
use kvcache_raft.Cluster.Steps.{node-Inv, call-Inv, same-tally, more-tally}
use kvcache_raft.Cluster.Launch.{launch-Inv}

moves-Inv :
    {n : ℕ} {k : Cluster} (i : ℕ) (s : RaftState)
    → Inv n k
    → i < n
    → KeepsOrder (k.nodes i) s
    → Inv n (record k { nodes = set_node k.nodes i s })
moves-Inv {n} {k} i s inv l keep =
    node-Inv i s inv l keep.votes λ h.
      let (a, e) = keep.leads h in subst (λ t. majority n ≤ k.votes i t) (sym e) (inv.led i l a)

loses-Inv :
    {n : ℕ} {k : Cluster} (c t v : ℕ)
    → Inv n k
    → v < n
    → k.calls c t v ≢ unsent
    → k.calls c t v ≢ counted
    → Inv n (record k { calls = set_call k.calls c t v closed })
loses-Inv {n} {k} c t v inv l begun open_ =
    call-Inv c t v closed inv l begun tt (λ h. absurd h) k.votes
      (same-tally c t v closed inv (ground arith)) (λ d u. omega arith)

unsent-cases : (p : CallPhase) → (p ≡ unsent) ⊎ (p ≢ unsent)
unsent-cases unsent = inl refl
unsent-cases (sent q) = inr (λ e. cc)
unsent-cases (answered q r) = inr (λ e. cc)
unsent-cases counted = inr (λ e. cc)
unsent-cases closed = inr (λ e. cc)

candidate_lem :
    (now : ℕ) (s : RaftState)
    → is_leader s.identity ≡ false
    → let t = persist_state (become_candidate now s) in
      (t.id ≡ s.id)
      × (t.peers ≡ s.peers)
      × (t.current_term ≡ s.current_term + 1)
      × (t.vote_for_id ≡ some s.id)
      × (is_leader t.identity ≡ false)
unfolding become_candidate persist_state
candidate_lem now s e = (refl, refl, refl, refl, refl)

do_election_starts :
    (now : ℕ) (s : RaftState)
    → is_leader s.identity ≡ false
    → do_election now s ≡ (
      persist_state (become_candidate now s),
      some (vote_args (become_candidate now s), other_peers s.id 0 s.peers),
    )
unfolding do_election
do_election_starts now s e = rw e

vote_args_lem :
    (now : ℕ) (s : RaftState)
    → ((vote_args (become_candidate now s)).term ≡ s.current_term + 1)
      × ((vote_args (become_candidate now s)).candidate_id ≡ s.id)
unfolding vote_args become_candidate
vote_args_lem now s = (refl, refl)

do_election_leads :
    (now : ℕ) (s : RaftState) → is_leader s.identity ≡ true → do_election now s ≡ (s, none)
unfolding do_election
do_election_leads now s e = rw e

begin_election-Inv :
    {n : ℕ} {k : Cluster} (i now : ℕ)
    → Inv n k
    → i < n
    → Inv n (begin_election k i (do_election now (k.nodes i)))
unfolding begin_election
begin_election-Inv {n} {k} i now inv l = elim (Bool-cases (is_leader (k.nodes i).identity)) [
  | inl leads ↦
      rw (do_election_leads now (k.nodes i) leads)
        (moves-Inv i (k.nodes i) inv l (KeepsOrder-same (refl, refl, refl, refl, refl)))
  | inr free ↦
      let s = k.nodes i in
      let t = persist_state (become_candidate now s) in
      let q = vote_args (become_candidate now s) in
      let (qt, qc) = vote_args_lem now s in
      let (a, b, c, d, e) = candidate_lem now s free in
      let id = (inv.ids i l).0 in
      let keep : KeepsVote s t = record {
        same_id = a;
        same_peers = b;
        term_grows = omega arith;
        vote_kept = λ z x y. absurd (omega arith);
      } in
      let moved = node-Inv i t inv l keep (λ h. cc) in
      let self : set_node k.nodes i t i ≡ t = ground arith in
      rw (do_election_starts now s free) (
        launch-Inv i q (other_peers s.id 0 s.peers) moved l (qc ∙ id) (rw self (c ∙ sym qt))
          (rw self (d ∙ ap some id))
          (λ w. elim (unsent-cases (k.calls i q.term w)) [
            | inl u ↦ u
            | inr ne ↦ let x = (inv.opened i q.term w ne).1 in absurd (omega arith)
          ])
          (λ d' h. let x = (inv.given d' q.term i l h).0 in omega arith))
]

deliver-Inv :
    {n : ℕ} {k : Cluster} (c t v now : ℕ) (q : RequestVoteArgs)
    → Inv n k
    → v < n
    → k.calls c t v ≡ sent q
    → Inv n (deliver k c t v q (request_vote now q (k.nodes v)))
unfolding deliver
deliver-Inv {n} {k} c t v now q inv l e =
    let x = request_vote now q (k.nodes v) in
    let moved = moves-Inv v x.0 inv l (request_vote-KeepsOrder now q (k.nodes v)) in
    let names : NamesElection c t (sent q) = subst (NamesElection c t) e (inv.named c t v) in
    call-Inv c t v (answered q x.1) moved l (λ h. cc) names
      (λ h. let g = request_vote-granted now q (k.nodes v) h in inr (ground arith, ground arith))
      k.votes (same-tally c t v (answered q x.1) moved (ground arith)) (λ d u. omega arith)

-- The call and the counter after a reply that is counted, or not.
take_in_call :
    {n : ℕ} {k : Cluster} (c t v : ℕ) (q : RequestVoteArgs) (r : RequestVoteReply) (m : ℕ)
    → Inv n k
    → v < n
    → k.calls c t v ≡ answered q r
    → (m ≡ k.votes c t) ⊎ ((m ≡ k.votes c t + 1) × (r.vote_granted ≡ true))
    → Inv n (record k {
      calls = set_call k.calls c t v (taken_in (k.votes c t) m);
      votes = set_votes k.votes c t m;
    })
take_in_call {n} {k} c t v q r m inv l e (inl same) =
    let shut : taken_in (k.votes c t) m ≡ closed = ground arith in
    let kept : (d u : ℕ) → set_votes k.votes c t m d u ≡ k.votes d u = λ d u. ground arith in
    rw shut (
      call-Inv c t v closed inv l (λ h. cc) tt (λ h. absurd h) (set_votes k.votes c t m)
        (λ d u. kept d u ∙ same-tally c t v closed inv (ground arith) d u)
        (λ d u. omega (arith, kept d u)))
take_in_call {n} {k} c t v q r m inv l e (inr (more, yes_)) =
    let open_ : taken_in (k.votes c t) m ≡ counted = ground arith in
    let held : HasVote (k.calls c t v) = rw e yes_ in
    rw (open_, more)
      (call-Inv c t v counted inv l (λ h. cc) tt (λ h. inl held)
        (set_votes k.votes c t (k.votes c t + 1)) (more-tally c t v inv l (ground arith))
        (λ d u. ground arith))

take_in-Inv :
    {n : ℕ} {k : Cluster} (c t v : ℕ) (q : RequestVoteArgs) (r : RequestVoteReply)
    → Inv n k
    → c < n
    → v < n
    → k.calls c t v ≡ answered q r
    → Inv n (take_in k c t v (handle_request_vote_response q r true (k.nodes c) (k.votes c t)))
unfolding take_in
take_in-Inv {n} {k} c t v q r inv lc l e =
    let x = handle_request_vote_response q r true (k.nodes c) (k.votes c t) in
    let i = handle_request_vote_response-Counts q r true (k.nodes c) (k.votes c t) in
    let names : NamesElection c t (answered q r) = subst (NamesElection c t) e (inv.named c t v) in
    let after =
      take_in_call c t v q r x.1 inv l e
        (elim i.counted [ inl (a, _) ↦ inl a | inr (a, own) ↦ inr (a, own.4) ]) in
    node-Inv c x.0 after lc i.keeps λ h. elim (i.leads h) [
      | inl (a, b) ↦
          subst (λ z. majority n ≤ set_votes k.votes c t x.1 c z) (sym b) (after.led c lc a)
      | inr (a, b, y) ↦
          let p = (inv.ids c lc).1 in
          let z : x.0.current_term ≡ t = y ∙ names.0 in
          let own : set_votes k.votes c t x.1 c x.0.current_term ≡ x.1 = ground arith in
          let b' : majority n ≤ x.1 = omega (arith, p, b) in rw own b'
    ]

-- Every step keeps the invariant.
pub Step-Inv : {n : ℕ} {k m : Cluster} → Step n k m → Inv n k → Inv n m
Step-Inv (times_out i now l) inv = begin_election-Inv i now inv l
Step-Inv (votes_on c t v now q l e) inv = deliver-Inv c t v now q inv l e
Step-Inv (takes_in c t v q r lc l e) inv = take_in-Inv c t v q r inv lc l e
Step-Inv (loses c t v l a b) inv = loses-Inv c t v inv l b a
Step-Inv (moves i l st) inv = moves-Inv i _ inv l (LocalStep-KeepsOrder st)

begin_election-votes :
    {n : ℕ} {k : Cluster} (i now : ℕ)
    → Inv n k
    → i < n
    → (c t : ℕ) → k.votes c t ≤ (begin_election k i (do_election now (k.nodes i))).votes c t
unfolding begin_election
begin_election-votes {n} {k} i now inv l c t = elim (Bool-cases (is_leader (k.nodes i).identity)) [
  | inl leads ↦ rw (do_election_leads now (k.nodes i) leads) (omega arith)
  | inr free ↦
      let s = k.nodes i in
      let q = vote_args (become_candidate now s) in
      let (qt, qc) = vote_args_lem now s in
      let none_sent =
        total_zero n (λ w. weight (k.calls i q.term w))
          (λ w m. elim (unsent-cases (k.calls i q.term w)) [
            | inl u ↦ ap weight u
            | inr ne ↦ let x = (inv.opened i q.term w ne).1 in absurd (omega arith)
          ]) in
      let none_counted : k.votes i q.term ≡ 0 = inv.tally i q.term ∙ none_sent in
      rw (do_election_starts now s free) (ground arith)
]

-- A counter never falls.
pub Step-votes :
    {n : ℕ} {k m : Cluster} → Step n k m → Inv n k → (c t : ℕ) → k.votes c t ≤ m.votes c t
unfolding deliver take_in
Step-votes (times_out i now l) inv c t = begin_election-votes i now inv l c t
Step-votes (votes_on c' t' v now q l e) inv c t = omega arith
Step-votes {k = k} (takes_in c' t' v q r lc l e) inv c t =
    let i = handle_request_vote_response-Counts q r true (k.nodes c') (k.votes c' t') in
    ground (arith, i.counted)
Step-votes (loses c' t' v l a b) inv c t = omega arith
Step-votes (moves i l st) inv c t = omega arith
