-- ===== src/SkipList/Destroy.antt =====
-- The destructor of include/common/skipList.h.
use kvcache_raft.Common.{
  ℕ, zero, suc, ◌<◌, ◌≡◌, ◌≢◌, refl, sym, ap, ◌∙◌, subst, List, [], ◌∷◌, Option, none, some, ok,
  All, All-mono, All-both, length, arith,
}
use kvcache_raft.SkipList.Order.{Order}
use kvcache_raft.SkipList.Types.{Node, SkipList, forward_at, poke}
use kvcache_raft.SkipList.Ops.{free_node, clear, destroy}
use kvcache_raft.SkipList.Cells.{Cell, Links, Distinct, Elsewhere}
use kvcache_raft.SkipList.Rep.{Rep}
use kvcache_raft.SkipList.Writes.{node_at, poke_same, poke_other}

module _ {K V : Type 0} where
  -- `m` is the memory of `s` without the nodes of the cells.
  pub record Freed (s : SkipList K V) (m : ℕ → Option (Node K V)) (cs : List (Cell K V))
      : Type 0 where
    pub gone : All (λ c. m c.addr ≡ none) cs
    pub others : (b : ℕ) → All (λ c. b ≢ c.addr) cs → m b ≡ s.nodes b

  free_one :
      (s : SkipList K V) (m : ℕ → Option (Node K V)) (c : Cell K V) (cs : List (Cell K V))
      {q : Option ℕ}
      → Freed s m cs
      → All (Elsewhere c.addr) cs
      → forward_at s 0 c.addr ≡ ok q
      → (free_node (record s { nodes = m }) c.addr ≡ ok (record s { nodes = poke m c.addr none }))
        × Freed s (poke m c.addr none) (c ∷ cs)
  unfolding free_node
  free_one s m c cs f apart e =
      let (n, at, g) = node_at s 0 c.addr e in
      let here =
        f.others c.addr
          (All-mono (Elsewhere c.addr) (λ d. c.addr ≢ d.addr) cs (λ d ne z. ne (sym z)) apart)
        ∙ at in
      (
        rw (here),
        record {
          gone = (
            poke_same m c.addr none c.addr refl,
            All-mono (λ (d : Cell K V). Elsewhere c.addr d × (m d.addr ≡ none))
                (λ d. poke m c.addr none d.addr ≡ none) cs
                (λ d p. poke_other m c.addr none d.addr p.0 ∙ p.1)
                (All-both (Elsewhere c.addr) (λ d. m d.addr ≡ none) cs apart f.gone),
          );
          others = λ b ne. poke_other m c.addr none b ne.0 ∙ f.others b ne.1;
        },
      )

  clear-Freed :
      (f : ℕ) (s : SkipList K V) (c : Cell K V) (cs : List (Cell K V))
      → length cs < f
      → Links (forward_at s 0) 0 (c ∷ cs)
      → Distinct (c ∷ cs)
      → (m : ℕ → Option (Node K V)) × (clear f s c.addr ≡ ok (record s { nodes = m }))
        × Freed s m (c ∷ cs)
  unfolding clear
  clear-Freed zero s c cs lt l d = absurd (omega arith)
  clear-Freed (suc f) s c [] lt l d =
      let e = l.0 (omega arith) in
      let (g, r) = free_one s s.nodes c [] (record { gone = tt; others = λ b ne. refl }) tt e in
      (poke s.nodes c.addr none, rw (e, g), r)
  clear-Freed (suc f) s c (x ∷ xs) lt l d =
      let e : forward_at s 0 c.addr ≡ ok (some x.addr) = l.0 (omega arith) ∙ ap ok (ground arith) in
      let (m, h, r) = clear-Freed f s x xs (omega arith) l.1 d.1 in
      let (g, r') = free_one s m c (x ∷ xs) r d.0 e in (poke m c.addr none, rw (e, h, g), r')

  -- The destructor frees the header and the node of every element, each once, reads none that it has
  -- freed, and leaves the rest of the memory alone. Its recursion ends.
  pub destroy-Freed :
      (ord : Order K) (s : SkipList K V) (h : Cell K V) (cs : List (Cell K V))
      → Rep ord s h cs
      → (m : ℕ → Option (Node K V)) × (destroy s ≡ ok (record s { nodes = m })) × Freed s m (h ∷ cs)
  unfolding destroy
  destroy-Freed ord s h [] r =
      let e =
        subst (λ a. forward_at s 0 a ≡ ok none) r.top ((r.links 0 (omega arith)).0 (omega arith)) in
      let (g, f) =
        free_one s s.nodes h [] (record { gone = tt; others = λ b ne. refl }) tt
          ((r.links 0 (omega arith)).0 (omega arith)) in
      let g' =
        subst (λ a. free_node s a ≡ ok (record s { nodes = poke s.nodes h.addr none })) r.top g in
      (poke s.nodes h.addr none, rw (e, g'), f)
  destroy-Freed ord s h (c ∷ cs) r =
      let l = r.links 0 (omega arith) in
      let e : forward_at s 0 h.addr ≡ ok (some c.addr) = l.0 (omega arith) ∙ ap ok (ground arith) in
      let e' = subst (λ a. forward_at s 0 a ≡ ok (some c.addr)) r.top e in
      let n = r.count in
      let (m, k, f) = clear-Freed (suc s.element_count) s c cs (omega arith) l.1 r.distinct.1 in
      let (g, f') = free_one s m h (c ∷ cs) f r.distinct.0 e in
      let g' =
        subst
          (λ a. free_node (record s { nodes = m }) a ≡ ok (record s { nodes = poke m h.addr none }))
          r.top g in
      (poke m h.addr none, rw (e', k, g'), f')
