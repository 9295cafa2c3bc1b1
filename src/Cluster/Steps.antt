-- ===== src/Cluster/Steps.antt =====
-- Vote requests of src/raft/raft.cc delivered, answered and lost, and the invariant.
use kvcache_raft.Common.{
  ℕ, ◌+◌, ◌≤◌, ◌<◌, ◌≡◌, ◌≢◌, refl, sym, ◌∙◌, subst, true, some, arith, ℕ_discrete, ◌==◌, ◌⊎◌, inl,
  inr, Bool-cases, ◌&&◌,
}
use kvcache_raft.Raft.Types.{RaftState, is_leader}
use kvcache_raft.Raft.Election.{majority}
use kvcache_raft.Raft.Terms.{KeepsVote}
use kvcache_raft.Cluster.Defs.{CallPhase, unsent, counted, Cluster, set_node, set_call, set_votes}
use kvcache_raft.Counting.{total, total_eq, total_one_more}
use kvcache_raft.Cluster.Invariant.{Inv, HasVote, weight, NamesElection}

-- A node that keeps the rule, and leads only with a majority.
pub node-Inv :
    {n : ℕ} {k : Cluster} (i : ℕ) (s : RaftState)
    → Inv n k
    → i < n
    → KeepsVote (k.nodes i) s
    → (is_leader s.identity ≡ true → majority n ≤ k.votes i s.current_term)
    → Inv n (record k { nodes = set_node k.nodes i s })
node-Inv {n} {k} i s inv l keep lead = record {
  ids = λ j m. elim (ℕ_discrete i j) [
    | yes e ↦ ground (arith, inv.ids i l, keep.same_id, keep.same_peers)
    | no ne ↦ ground (arith, inv.ids j m)
  ];
  opened = λ c t v h. elim (ℕ_discrete i c) [
    | yes e ↦ ground (arith, inv.opened c t v h, keep.term_grows)
    | no ne ↦ ground (arith, inv.opened c t v h)
  ];
  named = inv.named;
  given = λ c t v m h. elim (ℕ_discrete i v) [
    | yes e ↦
        let g = inv.given c t v m h in
        (
          ground (arith, keep.term_grows),
          λ x.
              let a : s.current_term ≡ t = ground arith in
              let b : s.current_term ≡ (k.nodes i).current_term = ground (arith, keep.term_grows) in
              let old : (k.nodes i).vote_for_id ≡ some c = ground arith in
              let new = keep.vote_kept b c old in ground arith,
        )
    | no ne ↦ ground (arith, inv.given c t v m h)
  ];
  once = inv.once;
  tally = inv.tally;
  led = λ j m h. elim (ℕ_discrete i j) [
    | yes e ↦ ground (arith, lead)
    | no ne ↦ ground (arith, inv.led j m)
  ];
}

-- What holds of the new call and of the old ones holds of all.
set_call-elim :
    (P : ℕ → ℕ → ℕ → CallPhase → Type 0) (f : ℕ → ℕ → ℕ → CallPhase) (c t v : ℕ) (p : CallPhase)
    → P c t v p
    → ((d u w : ℕ) → P d u w (f d u w))
    → (d u w : ℕ) → P d u w (set_call f c t v p d u w)
set_call-elim P f c t v p new old d u w = elim (Bool-cases (c == d && (t == u && v == w))) [
  | inr e ↦ rw e (old d u w)
  | inl e ↦
      let a : c ≡ d = ground arith in
      let b : t ≡ u = ground arith in
      let x : v ≡ w = ground arith in
      rw e (subst (λ z. P z u w p) a (subst (λ z. P c z w p) b (subst (λ z. P c t z p) x new)))
]

-- A vote is held by the new call or by an old one.
set_call-HasVote :
    (f : ℕ → ℕ → ℕ → CallPhase) (c t v : ℕ) (p : CallPhase) (d u w : ℕ)
    → HasVote (set_call f c t v p d u w)
    → ((d ≡ c) × (u ≡ t) × (w ≡ v) × HasVote p) ⊎ HasVote (f d u w)
set_call-HasVote f c t v p =
    set_call-elim
      (λ d u w q. HasVote q → ((d ≡ c) × (u ≡ t) × (w ≡ v) × HasVote p) ⊎ HasVote (f d u w)) f c t v
      p (λ h. inl (refl, refl, refl, h)) (λ d u w h. inr h)

module _ {n : ℕ} {k : Cluster} (c t v : ℕ) (p : CallPhase) (inv : Inv n k) (l : v < n)
    (begun : k.calls c t v ≢ unsent) (names : NamesElection c t p)
    (vote : HasVote p
      → HasVote (k.calls c t v)
        ⊎ (((k.nodes v).current_term ≡ t) × ((k.nodes v).vote_for_id ≡ some c))) where
  vote_given :
      HasVote p
      → (t ≤ (k.nodes v).current_term)
        × ((k.nodes v).current_term ≡ t → (k.nodes v).vote_for_id ≡ some c)
  vote_given h = elim (vote h) [
    | inl old ↦ inv.given c t v l old
    | inr (e, x) ↦ (omega arith, λ _. x)
  ]

  rival : HasVote p → (d : ℕ) → HasVote (k.calls d t v) → c ≡ d
  rival h d q = elim (vote h) [
    | inl old ↦ inv.once c d t v l old q
    | inr (e, x) ↦ let y = (inv.given d t v l q).1 e in ground arith
  ]

  call-once :
      (d e u w : ℕ)
      → w < n
      → HasVote (set_call k.calls c t v p d u w)
      → HasVote (set_call k.calls c t v p e u w)
      → d ≡ e
  call-once d e u w m h g = elim (set_call-HasVote k.calls c t v p d u w h) [
    | inl (a, b, x, q) ↦ elim (set_call-HasVote k.calls c t v p e u w g) [
      | inl (a', b', x', q') ↦ omega arith
      | inr g' ↦
          a
          ∙ rival q e
              (subst (λ z. HasVote (k.calls e z v)) b (subst (λ z. HasVote (k.calls e u z)) x g'))
    ]
    | inr h' ↦ elim (set_call-HasVote k.calls c t v p e u w g) [
      | inl (a, b, x, q) ↦ sym (
          a
          ∙ rival q d
              (subst (λ z. HasVote (k.calls d z v)) b (subst (λ z. HasVote (k.calls d u z)) x h')))
      | inr g' ↦ inv.once d e u w m h' g'
    ]
  ]

  -- A call goes on; it holds a vote only if it held one or its peer has just given it.
  pub call-Inv :
      (votes : ℕ → ℕ → ℕ)
      → ((d u : ℕ) → votes d u ≡ total n (λ w. weight (set_call k.calls c t v p d u w)))
      → ((d u : ℕ) → k.votes d u ≤ votes d u)
      → Inv n (record k { calls = set_call k.calls c t v p; votes = votes })
  call-Inv votes tally more = record {
    ids = inv.ids;
    opened =
        set_call-elim (λ d u w q. q ≢ unsent → (d < n) × (u ≤ (k.nodes d).current_term)) k.calls c t
          v p (λ h. inv.opened c t v begun) inv.opened;
    named = set_call-elim (λ d u w q. NamesElection d u q) k.calls c t v p names inv.named;
    given =
        set_call-elim
          (λ d u w q.
            w < n
            → HasVote q
            → (u ≤ (k.nodes w).current_term)
              × ((k.nodes w).current_term ≡ u → (k.nodes w).vote_for_id ≡ some d))
          k.calls c t v p (λ m h. vote_given h) inv.given;
    once = call-once;
    tally = tally;
    led = λ i m h. let x = inv.led i m h in let y = more i (k.nodes i).current_term in omega arith;
  }

-- The counters as they were, where the new call weighs what the old one did.
pub same-tally :
    {n : ℕ} {k : Cluster} (c t v : ℕ) (p : CallPhase)
    → Inv n k
    → weight p ≡ weight (k.calls c t v)
    → (d u : ℕ) → k.votes d u ≡ total n (λ w. weight (set_call k.calls c t v p d u w))
same-tally {n} {k} c t v p inv e d u =
    inv.tally d u
    ∙ total_eq n (λ w. weight (k.calls d u w)) (λ w. weight (set_call k.calls c t v p d u w))
        λ w m. sym (
          set_call-elim (λ d' u' w' q. weight q ≡ weight (k.calls d' u' w')) k.calls c t v p e
            (λ d' u' w'. refl) d u w)

-- One vote more, where the new call is counted and the old one was not.
pub more-tally :
    {n : ℕ} {k : Cluster} (c t v : ℕ)
    → Inv n k
    → v < n
    → weight (k.calls c t v) ≡ 0
    → (d u : ℕ)
    → set_votes k.votes c t (k.votes c t + 1) d u
      ≡ total n (λ w. weight (set_call k.calls c t v counted d u w))
more-tally {n} {k} c t v inv l light d u = elim (Bool-cases (c == d && t == u)) [
  | inl e ↦
      let a : c ≡ d = ground arith in
      let b : t ≡ u = ground arith in
      let none_yet : weight (k.calls d u v) ≡ 0 =
        subst (λ z. weight (k.calls z u v) ≡ 0) a
          (subst (λ z. weight (k.calls c z v) ≡ 0) b light) in
      let same : k.votes c t ≡ k.votes d u = cc in
      let at : weight (set_call k.calls c t v counted d u v) ≡ weight (k.calls d u v) + 1 =
        ground arith in
      let x =
        total_one_more n (λ w. weight (k.calls d u w))
          (λ w. weight (set_call k.calls c t v counted d u w)) v l at (λ w ne. ground arith) in
      rw e (omega (arith, x, inv.tally d u))
  | inr e ↦
      let x =
        total_eq n (λ w. weight (set_call k.calls c t v counted d u w))
          (λ w. weight (k.calls d u w)) (λ w m. ground arith) in
      rw e (inv.tally d u ∙ sym x)
]
