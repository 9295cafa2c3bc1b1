-- ===== src/SkipList/Writes.antt =====
-- The writes of include/common/skipList.h to the `forward` pointers of its nodes.
use kvcache_raft.Common.{
  ℕ, ◌≡◌, ◌≢◌, inl, inr, refl, sym, ap, ◌∙◌, Option, some, ok, arith, get_elem?, set,
  get_elem?-set_self, get_elem?-set_ne, get_elem?-lt, Option-cases, in_bounds, ◌>>=◌, ℕ_discrete,
}
use kvcache_raft.SkipList.Types.{Node, SkipList, forward_at, key_at, value_at, poke, set_forward}

module _ {K V : Type 0} where
  -- `t` is `s` with the pointer `a->forward[i]` changed to `p`.
  pub record Wrote (s t : SkipList K V) (i a : ℕ) (p : Option ℕ) : Type 0 where
    pub here : forward_at t i a ≡ ok p
    pub other_node : (j b : ℕ) → b ≢ a → forward_at t j b ≡ forward_at s j b
    pub other_level : (j b : ℕ) → j ≢ i → forward_at t j b ≡ forward_at s j b
    pub keys : (b : ℕ) → key_at t b ≡ key_at s b
    pub values : (b : ℕ) → value_at t b ≡ value_at s b

  pub node_at :
      (s : SkipList K V) (i a : ℕ) {q : Option ℕ}
      → forward_at s i a ≡ ok q
      → (n : Node K V) × (s.nodes a ≡ some n) × (get_elem? n.forward i ≡ some q)
  unfolding forward_at
  node_at s i a h = elim (Option-cases (s.nodes a)) [
    | inl e ↦ absurd (ground arith)
    | inr (n, e) ↦ (n, e, ground arith)
  ]

  pub poke_same :
      (f : ℕ → Option (Node K V)) (a : ℕ) (n : Option (Node K V)) (b : ℕ) → b ≡ a → poke f a n b ≡ n
  poke_same f a n b h = ground arith

  pub poke_other :
      (f : ℕ → Option (Node K V)) (a : ℕ) (n : Option (Node K V)) (b : ℕ)
      → b ≢ a
      → poke f a n b ≡ f b
  poke_other f a n b h = ground arith

  pub set_forward-Wrote :
      (s : SkipList K V) (i a : ℕ) (p : Option ℕ) {q : Option ℕ}
      → forward_at s i a ≡ ok q
      → (m : ℕ → Option (Node K V)) × (set_forward s i a p ≡ ok (record s { nodes = m }))
        × Wrote s (record s { nodes = m }) i a p
  unfolding set_forward forward_at key_at value_at
  set_forward-Wrote s i a p h =
      let (n, e, g) = node_at s i a h in
      let m = poke s.nodes a (some (record n { forward = set n.forward i p })) in
      let here : m a ≡ some (record n { forward = set n.forward i p }) =
        poke_same s.nodes a _ a refl in
      let there : (b : ℕ) → b ≢ a → m b ≡ s.nodes b = poke_other s.nodes a _ in
      let lt = get_elem?-lt n.forward i g in
      let self = get_elem?-set_self n.forward i p lt in
      (
        m,
        rw (e, g),
        record {
          here = rw (here, self);
          other_node = λ j b ne.
              ap (λ o. in_bounds o >>= λ x. in_bounds (get_elem? x.forward j)) (there b ne);
          other_level = λ j b ne. elim (ℕ_discrete b a) [
            | yes q ↦
                let q' : m b ≡ some (record n { forward = set n.forward i p }) =
                  poke_same s.nodes a _ b q in
                let e' : s.nodes b ≡ some n = ap s.nodes q ∙ e in
                let other = get_elem?-set_ne n.forward i j p (λ z. ne (sym z)) in rw (q', e', other)
            | no q ↦ ap (λ o. in_bounds o >>= λ x. in_bounds (get_elem? x.forward j)) (there b q)
          ];
          keys = λ b. elim (ℕ_discrete b a) [
            | yes q ↦
                let q' : m b ≡ some (record n { forward = set n.forward i p }) =
                  poke_same s.nodes a _ b q in
                let e' : s.nodes b ≡ some n = ap s.nodes q ∙ e in rw (q', e')
            | no q ↦ ap (λ o. in_bounds o >>= λ x. ok x.key) (there b q)
          ];
          values = λ b. elim (ℕ_discrete b a) [
            | yes q ↦
                let q' : m b ≡ some (record n { forward = set n.forward i p }) =
                  poke_same s.nodes a _ b q in
                let e' : s.nodes b ≡ some n = ap s.nodes q ∙ e in rw (q', e')
            | no q ↦ ap (λ o. in_bounds o >>= λ x. ok x.value) (there b q)
          ];
        },
      )
