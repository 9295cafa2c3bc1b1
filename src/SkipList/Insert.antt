-- ===== src/SkipList/Insert.antt =====
-- `insert_element` of include/common/skipList.h.
use kvcache_raft.Common.{
  ℕ, suc, ◌+◌, ◌≤◌, ◌<◌, ◌≡◌, ◌≢◌, inr, ap, ◌∙◌, List, ◌∷◌, ◌++◌, Option, none, true, ok, arith,
  All, All-mono, All-both, All-insert, All-append_left, All-append_right, Pairwise-cross,
  Pairwise-insert, Pairwise-append_left, dec_lt, length-append,
}
use kvcache_raft.SkipList.Order.{Order}
use kvcache_raft.SkipList.Types.{Node, SkipList, forward_at}
use kvcache_raft.SkipList.Ops.{link_new, insert_at}
use kvcache_raft.SkipList.Cells.{
  Cell, Links, Elsewhere, first_at, last_at, last_at-All, last_at-points, Links-ext,
  Links-append_right,
}
use kvcache_raft.SkipList.Relink.{Links-relink, Links-insert_short}
use kvcache_raft.SkipList.Path.{Held, Below, path}
use kvcache_raft.SkipList.Rep.{Rep, Above}
use kvcache_raft.SkipList.Rewiring.{LinkedIn, CanLink, link_new-LinkedIn}
use kvcache_raft.SkipList.Allocate.{
  allocate, allocate-forward_at, allocate-key_at, allocate-value_at, allocate-forward_at_new,
  allocate-key_at_new, allocate-value_at_new, raise_update-path,
}

module _ {K V : Type 0} where
  -- The cell that comes in.
  abbrev pub new_cell : SkipList K V → K → V → ℕ → Cell K V
  new_cell s key value level = record {
    addr = s.next_address;
    level = level;
    key = key;
    value = value;
  }

  module _ (ord : Order K) (key : K) (value : V) (level : ℕ) (s : SkipList K V) (h : Cell K V)
      (pre post : List (Cell K V)) (r : Rep ord s h (pre ++ post)) where
    abbrev before : ℕ → ℕ
    before j = (last_at j h pre).addr

    fresh_last : (j : ℕ) → before j < s.next_address
    fresh_last j =
        last_at-All (λ c. c.addr < s.next_address) j h pre r.fresh.0
          (All-append_left (λ (c : Cell K V). c.addr < s.next_address) pre post r.fresh.1)

    points : (j : ℕ) → j ≤ s.max_level → forward_at s j (before j) ≡ ok (first_at j post)
    points j le =
        let tall = r.tall in
        last_at-points (forward_at s j) j h pre post (omega arith) (r.links j le)

    can_link :
        level ≤ s.max_level
        → CanLink (allocate s key value level) s.next_address before 0 (suc level)
    can_link le = record {
      reads_old = λ j a b. (
        first_at j post,
        allocate-forward_at s key value level j (before j) (let p = fresh_last j in omega arith)
            ∙ points j (omega arith),
      );
      reads_new = λ j a b. (none, allocate-forward_at_new s key value level j (omega arith));
      apart = λ j. let p = fresh_last j in omega arith;
    }

    apart_post : (j : ℕ) → All (λ c. c.addr ≢ before j) post
    apart_post j =
        let cross =
          Pairwise-cross (λ (c d : Cell K V). Elsewhere c.addr d) (h ∷ pre) post r.distinct in
        last_at-All (λ x. All (λ c. c.addr ≢ x.addr) post) j h pre cross.0 cross.1

    module _ (m : ℕ → Option (Node K V))
        (l : LinkedIn
          (allocate s key value level)
          (record (allocate s key value level) { nodes = m })
          s.next_address
          before
          0
          (suc level)) where
      abbrev after : SkipList K V
      after = record (allocate s key value level) { nodes = m }

      Links-in :
          (i : ℕ)
          → i ≤ s.max_level
          → i ≤ level
          → Links (forward_at after i) i (h ∷ (pre ++ new_cell s key value level ∷ post))
      Links-in i im le =
          let old = allocate-forward_at s key value level i in
          let others = λ (b : ℕ) (ne : b ≢ before i) (lt : b < s.next_address).
            l.others i b ne (omega arith) ∙ old b (omega arith) in
          let behind =
            All-mono (λ (c : Cell K V). (c.addr ≢ before i) × (c.addr < s.next_address))
              (λ c. forward_at after i c.addr ≡ forward_at s i c.addr) post
              (λ c p. others c.addr p.0 p.1)
              (All-both (λ (c : Cell K V). c.addr ≢ before i) (λ c. c.addr < s.next_address) post
                (apart_post i)
                (All-append_right (λ (c : Cell K V). c.addr < s.next_address) pre post
                  r.fresh.1)) in
          let fl = fresh_last i in
          Links-relink (forward_at s i) (forward_at after i) i h pre post
            (new_cell s key value level ∷ post)
            (Pairwise-append_left (λ (c d : Cell K V). Elsewhere c.addr d) (h ∷ pre) post
              r.distinct)
            (All-mono (λ (c : Cell K V). c.addr < s.next_address)
              (λ c. c.addr ≢ before i → forward_at after i c.addr ≡ forward_at s i c.addr) (h ∷ pre)
              (λ c lt ne. others c.addr ne lt)
              (All-append_left (λ (c : Cell K V). c.addr < s.next_address) (h ∷ pre) post r.fresh))
            (l.old i (omega arith) (omega arith) ∙ ap ok (ground arith))
            (
              (λ q.
                  l.new i (omega arith) (omega arith) ∙ old (before i) (omega arith) ∙ points i im),
              Links-ext (forward_at s i) (forward_at after i) i post behind
                  (Links-append_right (forward_at s i) i (h ∷ pre) post (r.links i im)),
            )
            (r.links i im)

      Links-above :
          (i : ℕ)
          → i ≤ s.max_level
          → level < i
          → Links (forward_at after i) i (h ∷ (pre ++ new_cell s key value level ∷ post))
      Links-above i im lt =
          let same =
            All-mono (λ (c : Cell K V). c.addr < s.next_address)
              (λ c. forward_at after i c.addr ≡ forward_at s i c.addr) (h ∷ (pre ++ post))
              (λ c f.
                l.levels i c.addr (inr (omega arith))
                ∙ allocate-forward_at s key value level i c.addr (omega arith))
              r.fresh in
          Links-insert_short (forward_at after i) i (new_cell s key value level) (h ∷ pre) post lt (
            Links-ext (forward_at s i) (forward_at after i) i (h ∷ (pre ++ post)) same
              (r.links i im))

      Held-after : All (Held after) (pre ++ new_cell s key value level ∷ post)
      Held-after =
          All-insert (Held after) pre post (new_cell s key value level)
            (
              l.keys s.next_address ∙ allocate-key_at_new s key value level,
              l.values s.next_address ∙ allocate-value_at_new s key value level,
            )
            (All-mono (λ (c : Cell K V). Held s c × (c.addr < s.next_address)) (Held after)
              (pre ++ post)
              (λ c p. (
                l.keys c.addr
                    ∙ allocate-key_at s key value level c.addr (let lt = p.1 in omega arith)
                    ∙ p.0.0,
                l.values c.addr
                    ∙ allocate-value_at s key value level c.addr (let lt = p.1 in omega arith)
                    ∙ p.0.1,
              ))
              (All-both (Held s) (λ c. c.addr < s.next_address) (pre ++ post) r.held r.fresh.1))

      Rep-after :
          level ≤ s.max_level
          → All (Below ord key) pre
          → All (Above ord key) post
          → Rep ord after h (pre ++ new_cell s key value level ∷ post)
      Rep-after le b a =
          let n = new_cell s key value level in
          let capped = r.capped in
          let count = r.count in
          let size = length-append pre post in
          let size' = length-append pre (n ∷ post) in
          let raised : (s.skip_list_level ≤ after.skip_list_level)
              × (level ≤ after.skip_list_level)
              × (after.skip_list_level ≤ s.max_level) =
            ground arith in
          record {
            top = r.top;
            tall = r.tall;
            links = λ i im. elim (dec_lt level i) [
              | yes lt ↦ Links-above i im lt
              | no ge ↦ Links-in i im (omega arith)
            ];
            held = Held-after;
            sorted =
                Pairwise-insert (λ (c d : Cell K V). ord.lt c.key d.key ≡ true) pre post n b a
                  r.sorted;
            low =
                All-insert (λ (c : Cell K V). c.level ≤ after.skip_list_level) pre post n raised.1
                  (All-mono (λ (c : Cell K V). c.level ≤ s.skip_list_level)
                    (λ c. c.level ≤ after.skip_list_level) (pre ++ post)
                    (λ c p. let up = raised.0 in omega arith) r.low);
            capped = raised.2;
            fresh =
                All-insert (λ (c : Cell K V). c.addr < s.next_address + 1) (h ∷ pre) post n
                  (omega arith)
                  (All-mono (λ (c : Cell K V). c.addr < s.next_address)
                    (λ c. c.addr < s.next_address + 1) (h ∷ (pre ++ post)) (λ c p. omega arith)
                    r.fresh);
            distinct =
                Pairwise-insert (λ (c d : Cell K V). Elsewhere c.addr d) (h ∷ pre) post n
                  (All-mono (λ (c : Cell K V). c.addr < s.next_address) (λ c. Elsewhere c.addr n)
                    (h ∷ pre) (λ c p. omega arith)
                    (All-append_left (λ (c : Cell K V). c.addr < s.next_address) (h ∷ pre) post
                      r.fresh))
                  (All-mono (λ (c : Cell K V). c.addr < s.next_address) (Elsewhere n.addr) post
                    (λ c p. omega arith)
                    (All-append_right (λ (c : Cell K V). c.addr < s.next_address) (h ∷ pre) post
                      r.fresh))
                  r.distinct;
            count = omega arith;
          }

  -- The insertion at the place that the search has found.
  pub insert_at-Rep :
      (ord : Order K) (key : K) (value : V) (level : ℕ) (s : SkipList K V) (h : Cell K V)
      (pre post : List (Cell K V))
      → Rep ord s h (pre ++ post)
      → All (Below ord key) pre
      → All (Above ord key) post
      → level ≤ s.max_level
      → (t : SkipList K V) × (insert_at key value level (path h pre 0 (suc s.skip_list_level)) s
          ≡ ok t)
        × Rep ord t h (pre ++ new_cell s key value level ∷ post)
  unfolding insert_at
  insert_at-Rep ord key value level s h pre post r b a le =
      let raise =
        raise_update-path s level h pre r.top
          (All-append_left (λ (c : Cell K V). c.level ≤ s.skip_list_level) pre post r.low) in
      let (m, e, l) =
        link_new-LinkedIn (allocate s key value level) s.next_address h pre 0 (suc level)
          (can_link ord key value level s h pre post r le) in
      (
        record (allocate s key value level) { nodes = m },
        ap (link_new (allocate s key value level) s.next_address 0) raise ∙ e,
        Rep-after ord key value level s h pre post r m l le b a,
      )
