-- ===== src/SkipList/Search.antt =====
-- `search_element` and `dump_file` of include/common/skipList.h.
use kvcache_raft.Common.{
  ℕ, zero, suc, ◌<◌, ◌≡◌, inl, inr, refl, ap, ◌∙◌, subst, List, [], ◌∷◌, ◌++◌, some, true, false,
  ok, arith, All, All-append_left, All-append_right, All-mono, All-both, length, length-append,
  Option-cases,
}
use kvcache_raft.SkipList.Order.{Order, gt-eq}
use kvcache_raft.SkipList.Types.{SkipList, forward_at}
use kvcache_raft.SkipList.Ops.{find_path, find, has_key, search_element, dump_from, dump_file}
use kvcache_raft.SkipList.Cells.{Cell, Links, first_at, last_at-points}
use kvcache_raft.SkipList.Path.{Held, Below, NotBelow, path, advance-last_at, find_path-path}
use kvcache_raft.SkipList.Rep.{
  Rep, found, absent, Place-always, Above, NotBelow-Above, NotBelow-same, lookup, entries,
}
use kvcache_raft.SkipList.Entries.{lookup-found, lookup-absent}

module _ {K V : Type 0} where
  module _ (ord : Order K) (key : K) (s : SkipList K V) (h : Cell K V)
      (pre post : List (Cell K V)) where
    -- The search arrives between the elements before the key and the others.
    pub find-between :
        Rep ord s h (pre ++ post)
        → All (Below ord key) pre
        → All (NotBelow ord key) post
        → find ord s key ≡ ok (path h pre 0 (suc s.skip_list_level), first_at 0 post)
    unfolding find
    find-between r b q =
        let held_pre = All-append_left (Held s) pre post r.held in
        let held_post = All-append_right (Held s) pre post r.held in
        let b' = All-both (Held s) (Below ord key) pre held_pre b in
        let q' = All-both (Held s) (NotBelow ord key) post held_post q in
        let n = length-append pre post in
        let lt : length pre < suc s.element_count = omega (arith, r.count) in
        let tall = r.tall in
        let capped = r.capped in
        let top =
          advance-last_at ord key (suc s.element_count) s s.skip_list_level h pre post lt
            (omega arith) (r.links s.skip_list_level capped) b' q' in
        let p =
          find_path-path ord key (suc s.element_count) s s.skip_list_level h.addr h pre post lt
            (omega arith) (λ j le. r.links j (omega arith)) b' q' top in
        let p' =
          subst
            (λ a.
              find_path ord (suc s.element_count) s key s.skip_list_level a
              ≡ ok (path h pre 0 (suc s.skip_list_level)))
            r.top p in
        let e =
          last_at-points (forward_at s 0) 0 h pre post (omega arith) (r.links 0 (omega arith)) in
        rw (p', e)

  module _ (ord : Order K) (key : K) (s : SkipList K V) where
    pub has_key-same :
        (c : Cell K V) → Held s c → c.key ≡ key → has_key ord s key (some c.addr) ≡ ok true
    unfolding has_key
    has_key-same c held e =
        let t : ord.eq c.key key ≡ true =
          subst (λ z. ord.eq c.key z ≡ true) e (ord.eq_refl c.key) in
        rw (held.0, t)

    pub has_key-Above :
        (post : List (Cell K V))
        → All (Held s) post
        → All (Above ord key) post
        → has_key ord s key (first_at 0 post) ≡ ok false
    unfolding has_key
    has_key-Above [] held p = refl
    has_key-Above (c ∷ cs) held p =
        let ne = gt-eq ord c.key key p.0 in
        let e : first_at 0 (c ∷ cs) ≡ some c.addr = ground arith in rw (e, held.0.0, ne)

  -- What the search comes to.
  pub data Located (ord : Order K) (key : K) (s : SkipList K V) (h : Cell K V)
      (cs : List (Cell K V)) : Type 0 where
    at_cell :
        (pre : List (Cell K V)) (c : Cell K V) (post : List (Cell K V))
        → cs ≡ pre ++ c ∷ post
        → Rep ord s h (pre ++ c ∷ post)
        → All (Below ord key) pre
        → c.key ≡ key
        → All (Above ord key) post
        → find ord s key ≡ ok (path h pre 0 (suc s.skip_list_level), some c.addr)
        → has_key ord s key (some c.addr) ≡ ok true
        → Located ord key s h cs
    between :
        (pre post : List (Cell K V))
        → cs ≡ pre ++ post
        → Rep ord s h (pre ++ post)
        → All (Below ord key) pre
        → All (Above ord key) post
        → find ord s key ≡ ok (path h pre 0 (suc s.skip_list_level), first_at 0 post)
        → has_key ord s key (first_at 0 post) ≡ ok false
        → Located ord key s h cs

  module _ (ord : Order K) (key : K) (s : SkipList K V) (h : Cell K V) (cs : List (Cell K V)) where
    pub Located-always : Rep ord s h cs → Located ord key s h cs
    Located-always r = elim (Place-always ord key cs r.sorted) [
      | found pre c post e b k a ↦
          let r' = subst (Rep ord s h) e r in
          let q : All (NotBelow ord key) (c ∷ post) = (
            NotBelow-same ord key c k,
            All-mono (Above ord key) (NotBelow ord key) post (NotBelow-Above ord key) a,
          ) in
          let held = All-append_right (Held s) pre (c ∷ post) r'.held in
          at_cell pre c post e r' b k a
            (find-between ord key s h pre (c ∷ post) r' b q
              ∙ ap (λ p. ok (path h pre 0 (suc s.skip_list_level), p)) (ground arith))
            (has_key-same ord key s c held.0 k)
      | absent pre post e b a ↦
          let r' = subst (Rep ord s h) e r in
          between pre post e r' b a
            (find-between ord key s h pre post r' b
              (All-mono (Above ord key) (NotBelow ord key) post (NotBelow-Above ord key) a))
            (has_key-Above ord key s post (All-append_right (Held s) pre post r'.held) a)
    ]

  pub search_element-lookup :
      (ord : Order K) (key : K) (s : SkipList K V) (h : Cell K V) (cs : List (Cell K V))
      → Rep ord s h cs
      → search_element ord key s ≡ ok (lookup ord key (entries cs))
  unfolding search_element
  search_element-lookup ord key s h cs r = elim (Located-always ord key s h cs r) [
    | at_cell pre c post e r' b k a f y ↦
        let held = All-append_right (Held s) pre (c ∷ post) r'.held in
        let answer = ap (λ z. lookup ord key (entries z)) e ∙ lookup-found ord key pre c post k b in
        rw (f, y, held.0.1, answer)
    | between pre post e r' b a f y ↦
        let answer = ap (λ z. lookup ord key (entries z)) e ∙ lookup-absent ord key pre post b a in
        elim (Option-cases (first_at 0 post)) [
          | inl p ↦ rw (f, y, answer, p)
          | inr (x, p) ↦ rw (f, y, answer, p)
        ]
  ]

  dump_from-entries :
      (f : ℕ) (s : SkipList K V) (cs : List (Cell K V))
      → length cs < f
      → All (Held s) cs
      → Links (forward_at s 0) 0 cs
      → dump_from f s (first_at 0 cs) ≡ ok (entries cs)
  unfolding dump_from
  dump_from-entries zero s cs lt held l = absurd (omega arith)
  dump_from-entries (suc f) s [] lt held l = refl
  dump_from-entries (suc f) s (c ∷ cs) lt held l =
      let e : first_at 0 (c ∷ cs) ≡ some c.addr = ground arith in
      let ih = dump_from-entries f s cs (omega arith) held.1 l.1 in
      let p = l.0 (omega arith) in rw (e, held.0.0, held.0.1, p, ih)

  pub dump_file-entries :
      (ord : Order K) (s : SkipList K V) (h : Cell K V) (cs : List (Cell K V))
      → Rep ord s h cs
      → dump_file s ≡ ok (entries cs)
  unfolding dump_file
  dump_file-entries ord s h cs r =
      let l = r.links 0 (omega arith) in
      let head = subst (λ a. forward_at s 0 a ≡ ok (first_at 0 cs)) r.top (l.0 (omega arith)) in
      let n = r.count in
      (rw (head)) ∙ dump_from-entries (suc s.element_count) s cs (omega arith) r.held l.1
