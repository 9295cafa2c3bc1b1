-- ===== src/SkipList/Unlinking.antt =====
-- The loop of include/common/skipList.h (`delete_element`) that takes a node out.
use kvcache_raft.Common.{
  ℕ, zero, suc, ◌+◌, ◌≤◌, ◌<◌, ◌≡◌, ◌≢◌, ◌⊎◌, inl, inr, refl, sym, ap, ◌∙◌, subst, List, ◌∷◌,
  Option, some, true, false, ok, arith, ℕ_discrete, dec_lt,
}
use kvcache_raft.SkipList.Types.{Node, SkipList, forward_at, key_at, value_at}
use kvcache_raft.SkipList.Ops.{points_to, unlink}
use kvcache_raft.SkipList.Cells.{Cell, last_at}
use kvcache_raft.SkipList.Path.{path}
use kvcache_raft.SkipList.Writes.{set_forward-Wrote}

module _ {K V : Type 0} where
  -- `t` is `s` without the node at `c` behind `u j`, at the levels from `i` to `top`.
  pub record Unlinked (s t : SkipList K V) (c : ℕ) (u : ℕ → ℕ) (i top : ℕ) : Type 0 where
    pub out : (j : ℕ) → i ≤ j → j ≤ top → forward_at t j (u j) ≡ forward_at s j c
    pub others : (j b : ℕ) → b ≢ u j → forward_at t j b ≡ forward_at s j b
    pub levels : (j b : ℕ) → (j < i) ⊎ (top < j) → forward_at t j b ≡ forward_at s j b
    pub keys : (b : ℕ) → key_at t b ≡ key_at s b
    pub values : (b : ℕ) → value_at t b ≡ value_at s b

  -- The node at `c` is behind `u j` at the levels up to `top`, and at no other.
  pub record CanUnlink (s : SkipList K V) (c : ℕ) (u : ℕ → ℕ) (i k top : ℕ) : Type 0 where
    pub hits : (j : ℕ) → i ≤ j → j ≤ top → forward_at s j (u j) ≡ ok (some c)
    pub reads : (j : ℕ) → i ≤ j → j ≤ top → (q : Option ℕ) × (forward_at s j c ≡ ok q)
    pub misses :
        (j : ℕ)
        → top < j
        → j < i + k
        → (p : Option ℕ) × (forward_at s j (u j) ≡ ok p) × (points_to p c ≡ false)
    pub apart : (j : ℕ) → u j ≢ c

  Unlinked-none :
      (s : SkipList K V) (c : ℕ) (u : ℕ → ℕ) (i top : ℕ) → top < i → Unlinked s s c u i top
  Unlinked-none s c u i top lt = record {
    out = λ j a b. absurd (omega arith);
    others = λ j b ne. refl;
    levels = λ j b h. refl;
    keys = λ b. refl;
    values = λ b. refl;
  }

  -- One round of the loop.
  unlink_one :
      (s : SkipList K V) (c : ℕ) (u : ℕ → ℕ) (i k top : ℕ) (us : List ℕ)
      → i ≤ top
      → CanUnlink s c u i (suc k) top
      → (m : ℕ → Option (Node K V)) × (unlink s c i (u i ∷ us)
          ≡ unlink (record s { nodes = m }) c (i + 1) us)
        × Unlinked s (record s { nodes = m }) c u i i
  unfolding unlink
  unlink_one s c u i k top us le can =
      let e = can.hits i (omega arith) le in
      let (q, d) = can.reads i (omega arith) le in
      let (m, e1, w) = set_forward-Wrote s i (u i) q e in
      let self : points_to (some c) c ≡ true = ground arith in
      (
        m,
        rw (e, self, d, e1),
        record {
          out = λ j a b.
              let r : j ≡ i = omega arith in
              subst (λ z. forward_at (record s { nodes = m }) z (u z) ≡ forward_at s z c) (sym r)
                (w.here ∙ sym d);
          others = λ j b ne. elim (ℕ_discrete j i) [
            | yes r ↦ w.other_node j b (λ z. ne (z ∙ ap u (sym r)))
            | no r ↦ w.other_level j b r
          ];
          levels = λ j b h. let r : j ≢ i = omega arith in w.other_level j b r;
          keys = w.keys;
          values = w.values;
        },
      )

  unlink_step :
      (s t : SkipList K V) (c : ℕ) (u : ℕ → ℕ) (i k top : ℕ)
      → Unlinked s t c u i i
      → CanUnlink s c u i (suc k) top
      → i ≤ top
      → CanUnlink t c u (i + 1) k top
  unlink_step s t c u i k top l can le = record {
    hits = λ j a b. l.levels j (u j) (inr (omega arith)) ∙ can.hits j (omega arith) b;
    reads = λ j a b.
        let (q, e) = can.reads j (omega arith) b in (q, l.levels j c (inr (omega arith)) ∙ e);
    misses = λ j a b.
        let (p, e, f) = can.misses j a (omega arith) in
        (p, l.levels j (u j) (inr (omega arith)) ∙ e, f);
    apart = can.apart;
  }

  unlink_join :
      (s t w : SkipList K V) (c : ℕ) (u : ℕ → ℕ) (i top : ℕ)
      → Unlinked s t c u i i
      → Unlinked t w c u (i + 1) top
      → i ≤ top
      → Unlinked s w c u i top
  unlink_join s t w c u i top l r le = record {
    out = λ j a b. elim (dec_lt i j) [
      | yes lt ↦ r.out j (omega arith) b ∙ l.levels j c (inr (omega arith))
      | no ge ↦ r.levels j (u j) (inl (omega arith)) ∙ l.out j a (omega arith)
    ];
    others = λ j b ne. r.others j b ne ∙ l.others j b ne;
    levels = λ j b h. r.levels j b (omega arith) ∙ l.levels j b (omega arith);
    keys = λ b. r.keys b ∙ l.keys b;
    values = λ b. r.values b ∙ l.values b;
  }

  pub unlink-Unlinked :
      (s : SkipList K V) (c : ℕ) (h : Cell K V) (pre : List (Cell K V)) (i k top : ℕ)
      → i ≤ suc top
      → top < i + k
      → CanUnlink s c (λ j. (last_at j h pre).addr) i k top
      → (m : ℕ → Option (Node K V)) × (unlink s c i (path h pre i k) ≡ ok (record s { nodes = m }))
        × Unlinked s (record s { nodes = m }) c (λ j. (last_at j h pre).addr) i top
  unfolding unlink
  unlink-Unlinked s c h pre i zero top a b can =
      (s.nodes, refl, Unlinked-none s c (λ j. (last_at j h pre).addr) i top (omega arith))
  unlink-Unlinked s c h pre i (suc k) top a b can = elim (dec_lt top i) [
    | yes lt ↦
        let (p, e, f) = can.misses i lt (omega arith) in
        (s.nodes, rw (e, f), Unlinked-none s c (λ j. (last_at j h pre).addr) i top lt)
    | no ge ↦
        let u = λ (j : ℕ). (last_at j h pre).addr in
        let le : i ≤ top = omega arith in
        let (m1, e1, l1) = unlink_one s c u i k top (path h pre (i + 1) k) le can in
        let t = record s { nodes = m1 } in
        let (m2, e2, l2) =
          unlink-Unlinked t c h pre (i + 1) k top (omega arith) (omega arith)
            (unlink_step s t c u i k top l1 can le) in
        (m2, e1 ∙ e2, unlink_join s t (record s { nodes = m2 }) c u i top l1 l2 le)
  ]
