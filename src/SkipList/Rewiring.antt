-- ===== src/SkipList/Rewiring.antt =====
-- The loops of include/common/skipList.h that link a new node and unlink one.
use kvcache_raft.Common.{
  ℕ, zero, suc, ◌+◌, ◌≤◌, ◌<◌, ◌≡◌, ◌≢◌, ◌⊎◌, inl, inr, refl, sym, ap, ◌∙◌, subst, List, ◌∷◌,
  Option, some, ok, arith, ℕ_discrete, dec_lt,
}
use kvcache_raft.SkipList.Types.{Node, SkipList, forward_at, key_at, value_at}
use kvcache_raft.SkipList.Ops.{link_new}
use kvcache_raft.SkipList.Cells.{Cell, last_at}
use kvcache_raft.SkipList.Path.{path}
use kvcache_raft.SkipList.Writes.{set_forward-Wrote}

module _ {K V : Type 0} where
  -- `t` is `s` with the node at `n` linked in behind `u j`, at the levels from `i` to `i + k - 1`.
  pub record LinkedIn (s t : SkipList K V) (n : ℕ) (u : ℕ → ℕ) (i k : ℕ) : Type 0 where
    pub new : (j : ℕ) → i ≤ j → j < i + k → forward_at t j n ≡ forward_at s j (u j)
    pub old : (j : ℕ) → i ≤ j → j < i + k → forward_at t j (u j) ≡ ok (some n)
    pub others : (j b : ℕ) → b ≢ u j → b ≢ n → forward_at t j b ≡ forward_at s j b
    pub levels : (j b : ℕ) → (j < i) ⊎ (i + k ≤ j) → forward_at t j b ≡ forward_at s j b
    pub keys : (b : ℕ) → key_at t b ≡ key_at s b
    pub values : (b : ℕ) → value_at t b ≡ value_at s b

  -- The pointers that the loop reads and writes are there.
  pub record CanLink (s : SkipList K V) (n : ℕ) (u : ℕ → ℕ) (i k : ℕ) : Type 0 where
    pub reads_old : (j : ℕ) → i ≤ j → j < i + k → (p : Option ℕ) × (forward_at s j (u j) ≡ ok p)
    pub reads_new : (j : ℕ) → i ≤ j → j < i + k → (p : Option ℕ) × (forward_at s j n ≡ ok p)
    pub apart : (j : ℕ) → u j ≢ n

  -- One round of the loop.
  link_one :
      (s : SkipList K V) (n : ℕ) (u : ℕ → ℕ) (i k : ℕ) (us : List ℕ)
      → CanLink s n u i (suc k)
      → (m : ℕ → Option (Node K V)) × (link_new s n i (u i ∷ us)
          ≡ link_new (record s { nodes = m }) n (i + 1) us)
        × LinkedIn s (record s { nodes = m }) n u i 1
  unfolding link_new
  link_one s n u i k us c =
      let (p, e) = c.reads_old i (omega arith) (omega arith) in
      let (q, d) = c.reads_new i (omega arith) (omega arith) in
      let (m1, e1, w1) = set_forward-Wrote s i n p d in
      let e' = w1.other_node i (u i) (c.apart i) ∙ e in
      let (m2, e2, w2) = set_forward-Wrote (record s { nodes = m1 }) i (u i) (some n) e' in
      (
        m2,
        rw (e, e1, e2),
        record {
          new = λ j a b.
              let r : j ≡ i = omega arith in
              subst (λ z. forward_at (record s { nodes = m2 }) z n ≡ forward_at s z (u z)) (sym r)
                (w2.other_node i n (λ z. c.apart i (sym z)) ∙ w1.here ∙ sym e);
          old = λ j a b.
              let r : j ≡ i = omega arith in
              subst (λ z. forward_at (record s { nodes = m2 }) z (u z) ≡ ok (some n)) (sym r)
                w2.here;
          others = λ j b ne nn. elim (ℕ_discrete j i) [
            | yes r ↦ w2.other_node j b (λ z. ne (z ∙ ap u (sym r))) ∙ w1.other_node j b nn
            | no r ↦ w2.other_level j b r ∙ w1.other_level j b r
          ];
          levels =
              λ j b h. let r : j ≢ i = omega arith in w2.other_level j b r ∙ w1.other_level j b r;
          keys = λ b. w2.keys b ∙ w1.keys b;
          values = λ b. w2.values b ∙ w1.values b;
        },
      )

  link_step :
      (s t : SkipList K V) (n : ℕ) (u : ℕ → ℕ) (i k : ℕ)
      → LinkedIn s t n u i 1
      → CanLink s n u i (suc k)
      → CanLink t n u (i + 1) k
  link_step s t n u i k l c = record {
    reads_old = λ j a b.
        let (p, e) = c.reads_old j (omega arith) (omega arith) in
        (p, l.levels j (u j) (inr (omega arith)) ∙ e);
    reads_new = λ j a b.
        let (p, e) = c.reads_new j (omega arith) (omega arith) in
        (p, l.levels j n (inr (omega arith)) ∙ e);
    apart = c.apart;
  }

  link_join :
      (s t w : SkipList K V) (n : ℕ) (u : ℕ → ℕ) (i k : ℕ)
      → LinkedIn s t n u i 1
      → LinkedIn t w n u (i + 1) k
      → LinkedIn s w n u i (suc k)
  link_join s t w n u i k l r = record {
    new = λ j a b. elim (dec_lt i j) [
      | yes lt ↦ r.new j (omega arith) (omega arith) ∙ l.levels j (u j) (inr (omega arith))
      | no ge ↦ r.levels j n (inl (omega arith)) ∙ l.new j a (omega arith)
    ];
    old = λ j a b. elim (dec_lt i j) [
      | yes lt ↦ r.old j (omega arith) (omega arith)
      | no ge ↦ r.levels j (u j) (inl (omega arith)) ∙ l.old j a (omega arith)
    ];
    others = λ j b ne nn. r.others j b ne nn ∙ l.others j b ne nn;
    levels = λ j b h. r.levels j b (omega arith) ∙ l.levels j b (omega arith);
    keys = λ b. r.keys b ∙ l.keys b;
    values = λ b. r.values b ∙ l.values b;
  }

  pub link_new-LinkedIn :
      (s : SkipList K V) (n : ℕ) (h : Cell K V) (pre : List (Cell K V)) (i k : ℕ)
      → CanLink s n (λ j. (last_at j h pre).addr) i k
      → (m : ℕ → Option (Node K V)) × (link_new s n i (path h pre i k)
          ≡ ok (record s { nodes = m }))
        × LinkedIn s (record s { nodes = m }) n (λ j. (last_at j h pre).addr) i k
  unfolding link_new
  link_new-LinkedIn s n h pre i zero c = (
    s.nodes,
    refl,
    record {
      new = λ j a b. absurd (omega arith);
      old = λ j a b. absurd (omega arith);
      others = λ j b ne nn. refl;
      levels = λ j b h. refl;
      keys = λ b. refl;
      values = λ b. refl;
    },
  )
  link_new-LinkedIn s n h pre i (suc k) c =
      let u = λ (j : ℕ). (last_at j h pre).addr in
      let (m1, e1, l1) = link_one s n u i k (path h pre (i + 1) k) c in
      let t = record s { nodes = m1 } in
      let (m2, e2, l2) = link_new-LinkedIn t n h pre (i + 1) k (link_step s t n u i k l1 c) in
      (m2, e1 ∙ e2, link_join s t (record s { nodes = m2 }) n u i k l1 l2)
