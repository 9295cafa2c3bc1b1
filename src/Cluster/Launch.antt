-- ===== src/Cluster/Launch.antt =====
-- The start of an election (`doElection` of src/raft/raft.cc) and the invariant.
use kvcache_raft.Common.{
  ℕ, ◌≤◌, ◌<◌, ◌≡◌, ◌≢◌, refl, sym, ◌∙◌, subst, ap, true, false, some, arith, ◌==◌, ◌⊎◌, inl, inr,
  Bool-cases, ◌&&◌, if◌then◌else◌, List,
}
use kvcache_raft.Proto.{RequestVoteArgs}
use kvcache_raft.Cluster.Defs.{
  CallPhase, unsent, sent, counted, Cluster, set_votes, launch, contains,
}
use kvcache_raft.Counting.{total, total_eq, total_one_more, total_zero}
use kvcache_raft.Cluster.Invariant.{Inv, HasVote, weight, NamesElection}

-- The call to `w` in the election of `c`.
abbrev first_call : ℕ → RequestVoteArgs → List ℕ → ℕ → CallPhase
first_call c q peers w = if c == w then counted else if contains peers w then sent q else unsent

launch-elim :
    (P : ℕ → ℕ → ℕ → CallPhase → Type 0) (f : ℕ → ℕ → ℕ → CallPhase) (c : ℕ) (q : RequestVoteArgs)
    (peers : List ℕ)
    → ((w : ℕ) → P c q.term w (first_call c q peers w))
    → ((d u w : ℕ) → P d u w (f d u w))
    → (d u w : ℕ) → P d u w (launch f c q peers d u w)
unfolding launch
launch-elim P f c q peers new old d u w = elim (Bool-cases (c == d && q.term == u)) [
  | inr e ↦ rw e (old d u w)
  | inl e ↦
      let a : c ≡ d = ground arith in
      let b : q.term ≡ u = ground arith in
      rw e (
        subst (λ z. P z u w (first_call c q peers w)) a
          (subst (λ z. P c z w (first_call c q peers w)) b (new w)))
]

launch_other :
    (f : ℕ → ℕ → ℕ → CallPhase) (c : ℕ) (q : RequestVoteArgs) (peers : List ℕ) (d u w : ℕ)
    → (c == d && q.term == u) ≡ false
    → launch f c q peers d u w ≡ f d u w
unfolding launch
launch_other f c q peers d u w e = rw e

launch_own :
    (f : ℕ → ℕ → ℕ → CallPhase) (c : ℕ) (q : RequestVoteArgs) (peers : List ℕ) (d u w : ℕ)
    → (c == d && q.term == u) ≡ true
    → launch f c q peers d u w ≡ first_call c q peers w
unfolding launch
launch_own f c q peers d u w e = rw e

first_call-HasVote :
    (c : ℕ) (q : RequestVoteArgs) (peers : List ℕ) (w : ℕ)
    → HasVote (first_call c q peers w)
    → w ≡ c
first_call-HasVote c q peers w h = ground arith

first_call-named :
    (c : ℕ) (q : RequestVoteArgs) (peers : List ℕ) (w : ℕ)
    → q.candidate_id ≡ c
    → NamesElection c q.term (first_call c q peers w)
first_call-named c q peers w h = ground arith

first_call-weight :
    (n c : ℕ) (q : RequestVoteArgs) (peers : List ℕ)
    → c < n
    → total n (λ w. weight (first_call c q peers w)) ≡ 1
first_call-weight n c q peers l =
    let z = total_zero n (λ _. 0) (λ v m. refl) in
    let o =
      total_one_more n (λ _. 0) (λ w. weight (first_call c q peers w)) c l (ground arith)
        (λ w ne. ground arith) in
    omega arith

module _ {n : ℕ} {k : Cluster} (c : ℕ) (q : RequestVoteArgs) (peers : List ℕ) (inv : Inv n k)
    (l : c < n) (id : q.candidate_id ≡ c) (term : (k.nodes c).current_term ≡ q.term)
    (own : (k.nodes c).vote_for_id ≡ some c) (fresh : (w : ℕ) → k.calls c q.term w ≡ unsent)
    (alone : (d : ℕ) → ¬ HasVote (k.calls d q.term c)) where
  launch-HasVote :
      (d u w : ℕ)
      → HasVote (launch k.calls c q peers d u w)
      → ((d ≡ c) × (u ≡ q.term) × (w ≡ c)) ⊎ HasVote (k.calls d u w)
  launch-HasVote =
      launch-elim
        (λ d u w p. HasVote p → ((d ≡ c) × (u ≡ q.term) × (w ≡ c)) ⊎ HasVote (k.calls d u w))
        k.calls c q peers (λ w h. inl (refl, refl, first_call-HasVote c q peers w h))
        (λ d u w h. inr h)

  launch-once :
      (d e u w : ℕ)
      → w < n
      → HasVote (launch k.calls c q peers d u w)
      → HasVote (launch k.calls c q peers e u w)
      → d ≡ e
  launch-once d e u w m h g = elim (launch-HasVote d u w h) [
    | inl (a, b, x) ↦ elim (launch-HasVote e u w g) [
      | inl (a', b', x') ↦ omega arith
      | inr g' ↦ absurd (
          alone e
            (subst (λ z. HasVote (k.calls e z c)) b (subst (λ z. HasVote (k.calls e u z)) x g')))
    ]
    | inr h' ↦ elim (launch-HasVote e u w g) [
      | inl (a, b, x) ↦ absurd (
          alone d
            (subst (λ z. HasVote (k.calls d z c)) b (subst (λ z. HasVote (k.calls d u z)) x h')))
      | inr g' ↦ inv.once d e u w m h' g'
    ]
  ]

  launch-tally :
      (d u : ℕ)
      → set_votes k.votes c q.term 1 d u ≡ total n (λ w. weight (launch k.calls c q peers d u w))
  launch-tally d u = elim (Bool-cases (c == d && q.term == u)) [
    | inl e ↦
        let x =
          total_eq n (λ w. weight (launch k.calls c q peers d u w))
            (λ w. weight (first_call c q peers w))
            (λ w m. ap weight (launch_own k.calls c q peers d u w e)) in
        rw e (sym (x ∙ first_call-weight n c q peers l))
    | inr e ↦
        let x =
          total_eq n (λ w. weight (launch k.calls c q peers d u w)) (λ w. weight (k.calls d u w))
            (λ w m. ap weight (launch_other k.calls c q peers d u w e)) in
        rw e (inv.tally d u ∙ sym x)
  ]

  no_votes_yet : k.votes c q.term ≡ 0
  no_votes_yet =
      inv.tally c q.term
      ∙ total_zero n (λ w. weight (k.calls c q.term w)) (λ w m. ap weight (fresh w))

  pub launch-Inv :
      Inv n (record k { calls = launch k.calls c q peers; votes = set_votes k.votes c q.term 1 })
  launch-Inv = record {
    ids = inv.ids;
    opened =
        launch-elim (λ d u w p. p ≢ unsent → (d < n) × (u ≤ (k.nodes d).current_term)) k.calls c q
          peers (λ w h. (l, omega arith)) inv.opened;
    named =
        launch-elim (λ d u w p. NamesElection d u p) k.calls c q peers
          (λ w. first_call-named c q peers w id) inv.named;
    given =
        launch-elim
          (λ d u w p.
            w < n
            → HasVote p
            → (u ≤ (k.nodes w).current_term)
              × ((k.nodes w).current_term ≡ u → (k.nodes w).vote_for_id ≡ some d))
          k.calls c q peers
          (λ w m h.
            let e = sym (first_call-HasVote c q peers w h) in
            subst
              (λ z.
                (q.term ≤ (k.nodes z).current_term)
                × ((k.nodes z).current_term ≡ q.term → (k.nodes z).vote_for_id ≡ some c))
              e (omega arith, λ _. own))
          inv.given;
    once = launch-once;
    tally = launch-tally;
    led = λ i m h. let x = inv.led i m h in ground (arith, no_votes_yet);
  }
