-- ===== src/SkipList/Delete.antt =====
-- `delete_element` of include/common/skipList.h.
use kvcache_raft.Common.{
  ℕ, suc, ◌≤◌, ◌<◌, ◌≡◌, ◌≢◌, inl, inr, refl, sym, ap, ◌∙◌, subst, List, ◌∷◌, ◌++◌, true, false, ok,
  arith, All, All-mono, All-both, All-remove, All-all, All-append, ◌==◌, All-append_right,
  Pairwise-cross, Pairwise-remove, Pairwise-append_left, Pairwise-append_right, dec_lt,
  length-append,
}
use kvcache_raft.SkipList.Order.{Order}
use kvcache_raft.SkipList.Types.{SkipList, forward_at}
use kvcache_raft.SkipList.Ops.{delete_at}
use kvcache_raft.SkipList.Cells.{
  Cell, Links, Elsewhere, first_at, first_at-All, last_at, last_at-All, last_at-points, Links-ext,
  Links-append_right,
}
use kvcache_raft.SkipList.Relink.{Links-relink, Links-remove_short}
use kvcache_raft.SkipList.Path.{Held, path}
use kvcache_raft.SkipList.Rep.{Rep}
use kvcache_raft.SkipList.Free.{
  lower_level-All, freed, freed-forward_at, freed-key_at, freed-value_at,
}
use kvcache_raft.SkipList.Unlinking.{Unlinked, CanUnlink, unlink-Unlinked}

module _ {K V : Type 0} where
  module _ (ord : Order K) (s : SkipList K V) (h : Cell K V) (pre : List (Cell K V)) (c : Cell K V)
      (post : List (Cell K V)) (r : Rep ord s h (pre ++ c ∷ post)) where
    abbrev before : ℕ → ℕ
    before j = (last_at j h pre).addr

    points : (j : ℕ) → j ≤ s.max_level → forward_at s j (before j) ≡ ok (first_at j (c ∷ post))
    points j le =
        let tall = r.tall in
        last_at-points (forward_at s j) j h pre (c ∷ post) (omega arith) (r.links j le)

    reads_cell :
        (j : ℕ) → j ≤ s.max_level → j ≤ c.level → forward_at s j c.addr ≡ ok (first_at j post)
    reads_cell j im le =
        (Links-append_right (forward_at s j) j (h ∷ pre) (c ∷ post) (r.links j im)).0 le

    cross : All (λ x. All (Elsewhere x.addr) (c ∷ post)) (h ∷ pre)
    cross = Pairwise-cross (λ (x d : Cell K V). Elsewhere x.addr d) (h ∷ pre) (c ∷ post) r.distinct

    apart_behind : (j : ℕ) → All (Elsewhere (before j)) (c ∷ post)
    apart_behind j = last_at-All (λ x. All (Elsewhere x.addr) (c ∷ post)) j h pre cross.0 cross.1

    post_apart : All (Elsewhere c.addr) post
    post_apart =
        (Pairwise-append_right (λ (x d : Cell K V). Elsewhere x.addr d) (h ∷ pre) (c ∷ post)
          r.distinct).0

    level_low : c.level ≤ s.skip_list_level
    level_low =
        (All-append_right (λ (x : Cell K V). x.level ≤ s.skip_list_level) pre (c ∷ post) r.low).0

    others_apart : All (Elsewhere c.addr) (h ∷ (pre ++ post))
    others_apart =
        All-append (Elsewhere c.addr) (h ∷ pre) post
          (All-mono (λ (x : Cell K V). All (Elsewhere x.addr) (c ∷ post)) (Elsewhere c.addr)
            (h ∷ pre) (λ x p e. p.0 (sym e)) cross)
          post_apart

    can_unlink : CanUnlink s c.addr before 0 (suc s.skip_list_level) c.level
    can_unlink =
        let capped = r.capped in
        let low = level_low in
        record {
          hits = λ j a b. points j (omega arith) ∙ ap ok (ground arith);
          reads = λ j a b. (first_at j post, reads_cell j (omega arith) b);
          misses = λ j a b. (
            first_at j post,
            points j (omega arith) ∙ ap ok (ground arith),
            elim (first_at-All (Elsewhere c.addr) j post post_apart) [
              | inl p ↦ rw (p)
              | inr (d, p, q) ↦ let ne : (d.addr == c.addr) ≡ false = ground arith in rw (p, ne)
            ],
          );
          apart = λ j e. (apart_behind j).0 (sym e);
        }

    module _ (t : SkipList K V) (l : Unlinked s t c.addr before 0 c.level) where
      Links-out :
          (i : ℕ) → i ≤ s.max_level → i ≤ c.level → Links (forward_at t i) i (h ∷ (pre ++ post))
      Links-out i im le =
          let behind =
            All-mono (Elsewhere (before i)) (λ d. forward_at t i d.addr ≡ forward_at s i d.addr)
              post (λ d p. l.others i d.addr p) (apart_behind i).1 in
          Links-relink (forward_at s i) (forward_at t i) i h pre (c ∷ post) post
            (Pairwise-append_left (λ (x d : Cell K V). Elsewhere x.addr d) (h ∷ pre) (c ∷ post)
              r.distinct)
            (All-all (λ d. d.addr ≢ before i → forward_at t i d.addr ≡ forward_at s i d.addr)
              (λ d ne. l.others i d.addr ne) (h ∷ pre))
            (l.out i (omega arith) le ∙ reads_cell i im le)
            (Links-ext (forward_at s i) (forward_at t i) i post behind
              (Links-append_right (forward_at s i) i (h ∷ pre) (c ∷ post) (r.links i im)).1)
            (r.links i im)

      Links-above :
          (i : ℕ) → i ≤ s.max_level → c.level < i → Links (forward_at t i) i (h ∷ (pre ++ post))
      Links-above i im lt = Links-remove_short (forward_at t i) i c (h ∷ pre) post lt (
          Links-ext (forward_at s i) (forward_at t i) i (h ∷ (pre ++ c ∷ post))
            (All-all (λ d. forward_at t i d.addr ≡ forward_at s i d.addr)
              (λ d. l.levels i d.addr (inr lt)) (h ∷ (pre ++ c ∷ post)))
            (r.links i im))

      Links-both : (i : ℕ) → i ≤ s.max_level → Links (forward_at t i) i (h ∷ (pre ++ post))
      Links-both i im = elim (dec_lt c.level i) [
        | yes lt ↦ Links-above i im lt
        | no ge ↦ Links-out i im (omega arith)
      ]

      Rep-after :
          (level : ℕ)
          → t.header ≡ s.header
          → t.max_level ≡ s.max_level
          → t.next_address ≡ s.next_address
          → t.element_count ≡ s.element_count
          → level ≤ s.skip_list_level
          → All (λ d. d.level ≤ level) (pre ++ post)
          → Rep ord (freed t c.addr level) h (pre ++ post)
      Rep-after level header max_level next count le low =
          let capped = r.capped in
          let n = r.count in
          let size = length-append pre (c ∷ post) in
          let size' = length-append pre post in
          record {
            top = r.top ∙ sym header;
            tall = r.tall ∙ sym max_level;
            links = λ i im.
                Links-ext (forward_at t i) (forward_at (freed t c.addr level) i) i
                  (h ∷ (pre ++ post))
                  (All-mono (Elsewhere c.addr)
                    (λ d. forward_at (freed t c.addr level) i d.addr ≡ forward_at t i d.addr)
                    (h ∷ (pre ++ post)) (λ d ne. freed-forward_at t c.addr level d.addr ne i)
                    others_apart)
                  (Links-both i (omega arith));
            held =
                All-mono (λ (d : Cell K V). Elsewhere c.addr d × Held s d)
                  (Held (freed t c.addr level)) (pre ++ post)
                  (λ d p. (
                    freed-key_at t c.addr level d.addr p.0 ∙ l.keys d.addr ∙ p.1.0,
                    freed-value_at t c.addr level d.addr p.0 ∙ l.values d.addr ∙ p.1.1,
                  ))
                  (All-both (Elsewhere c.addr) (Held s) (pre ++ post) others_apart.1
                    (All-remove (Held s) pre post c r.held));
            sorted =
                Pairwise-remove (λ (x d : Cell K V). ord.lt x.key d.key ≡ true) pre post c r.sorted;
            low = low;
            capped = omega arith;
            fresh =
                All-mono (λ (d : Cell K V). d.addr < s.next_address) (λ d. d.addr < t.next_address)
                  (h ∷ (pre ++ post)) (λ d p. omega arith)
                  (All-remove (λ (d : Cell K V). d.addr < s.next_address) (h ∷ pre) post c r.fresh);
            distinct =
                Pairwise-remove (λ (x d : Cell K V). Elsewhere x.addr d) (h ∷ pre) post c
                  r.distinct;
            count = omega arith;
          }

  -- The node that the search has found is taken out.
  pub delete_at-Rep :
      (ord : Order K) (s : SkipList K V) (h : Cell K V) (pre : List (Cell K V)) (c : Cell K V)
      (post : List (Cell K V))
      → Rep ord s h (pre ++ c ∷ post)
      → (t : SkipList K V) × (delete_at c.addr (path h pre 0 (suc s.skip_list_level)) s ≡ ok t)
        × Rep ord t h (pre ++ post)
  unfolding delete_at
  delete_at-Rep ord s h pre c post r =
      let capped = r.capped in
      let low = level_low ord s h pre c post r in
      let (m, e, l) =
        unlink-Unlinked s c.addr h pre 0 (suc s.skip_list_level) c.level (omega arith) (omega arith)
          (can_unlink ord s h pre c post r) in
      let t = record s { nodes = m } in
      let tall = r.tall in
      let links = Links-both ord s h pre c post r t l in
      let (level, f, le, down) =
        lower_level-All t (pre ++ post) s.skip_list_level
          (λ i im.
            subst (λ a. forward_at t i a ≡ ok (first_at i (pre ++ post))) r.top
              ((links i (omega arith)).0 (omega arith)))
          (All-remove (λ (d : Cell K V). d.level ≤ s.skip_list_level) pre post c r.low) in
      (
        freed t c.addr level,
        rw (e, f),
        Rep-after ord s h pre c post r t l level refl refl refl refl le down,
      )
