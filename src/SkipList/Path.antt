-- ===== src/SkipList/Path.antt =====
-- The search of include/common/skipList.h: where its loops arrive.
use kvcache_raft.Common.{
  ℕ, zero, suc, ◌+◌, ◌≤◌, ◌<◌, ◌≡◌, ◌⊎◌, inl, inr, refl, sym, ap, ◌∙◌, subst, List, [], ◌∷◌, ◌++◌,
  some, true, false, leb, ok, arith, All, All-append_right, Bool-cases, leb→le, length,
  length-append, append_assoc,
}
use kvcache_raft.SkipList.Order.{Order}
use kvcache_raft.SkipList.Types.{SkipList, forward_at, key_at, value_at}
use kvcache_raft.SkipList.Ops.{advance, find_path}
use kvcache_raft.SkipList.Cells.{
  Cell, Links, first_at, last_at, first_at-All, last_at-behind, Links-append_right,
}

module _ {K V : Type 0} where
  -- The node of the cell has its key and its value.
  abbrev pub Held : SkipList K V → Cell K V → Type 0
  Held s c = (key_at s c.addr ≡ ok c.key) × (value_at s c.addr ≡ ok c.value)

  -- `update[i]`, ..., `update[i + n - 1]` when the elements `pre` come before the key.
  abbrev pub path : Cell K V → List (Cell K V) → ℕ → ℕ → List ℕ
  path h pre i zero = []
  path h pre i (suc n) = (last_at i h pre).addr ∷ path h pre (i + 1) n

  pub path-snoc :
      (h : Cell K V) (pre : List (Cell K V)) (i n k : ℕ)
      → k ≡ i + n
      → path h pre i (suc n) ≡ path h pre i n ++ (last_at k h pre).addr ∷ []
  path-snoc h pre i zero k e = let e' : k ≡ i = omega arith in rw (e')
  path-snoc h pre i (suc n) k e =
      ap (◌∷◌ (last_at i h pre).addr) (path-snoc h pre (i + 1) n k (omega arith))

  -- At a level above, the search has stopped at `h` or at a cell `c` of `pre`.
  pub Stopped : ℕ → Cell K V → List (Cell K V) → Type 0
  Stopped j h pre =
      (last_at j h pre ≡ h)
      ⊎ ((c : Cell K V) × (before : List (Cell K V)) × (behind : List (Cell K V)) × (pre
            ≡ before ++ c ∷ behind)
          × (j ≤ c.level)
          × (last_at j h pre ≡ c))

  pub Stopped-always : (j : ℕ) (h : Cell K V) (pre : List (Cell K V)) → Stopped j h pre
  unfolding Stopped
  Stopped-always j h [] = inl refl
  Stopped-always j h (c ∷ cs) = elim (Bool-cases (leb j c.level)) [
    | inl p ↦ elim (Stopped-always j c cs) [
      | inl e ↦ inr (c, [], cs, refl, leb→le j c.level p, (rw (p)) ∙ e)
      | inr (d, xs, ys, e, q, t) ↦ inr (d, c ∷ xs, ys, ap (◌∷◌ c) e, q, (rw (p)) ∙ t)
    ]
    | inr p ↦ elim (Stopped-always j h cs) [
      | inl e ↦ inl ((rw (p)) ∙ e)
      | inr (d, xs, ys, e, q, t) ↦ inr (d, c ∷ xs, ys, ap (◌∷◌ c) e, q, (rw (p)) ∙ t)
    ]
  ]

  module _ (ord : Order K) (key : K) where
    abbrev pub Below : Cell K V → Type 0
    Below c = ord.lt c.key key ≡ true

    abbrev pub NotBelow : Cell K V → Type 0
    NotBelow c = ord.lt c.key key ≡ false

    advance-stop :
        (f : ℕ) (s : SkipList K V) (i : ℕ) (h : Cell K V) (post : List (Cell K V))
        → forward_at s i h.addr ≡ ok (first_at i post)
        → All (λ c. Held s c × NotBelow c) post
        → advance ord (suc f) s i key h.addr ≡ ok h.addr
    unfolding advance
    advance-stop f s i h post e q = elim (first_at-All (λ c. Held s c × NotBelow c) i post q) [
      | inl p ↦ rw (e, p)
      | inr (c, p, q) ↦ rw (e, p, q.0.0, q.1)
    ]

    advance-step :
        (f : ℕ) (s : SkipList K V) (i a : ℕ) (c : Cell K V)
        → forward_at s i a ≡ ok (some c.addr)
        → Held s c
        → Below c
        → advance ord (suc f) s i key a ≡ advance ord f s i key c.addr
    unfolding advance
    advance-step f s i a c e held below = rw (e, held.0, below)

    -- The inner loop goes to the last cell of the level before the key.
    pub advance-last_at :
        (f : ℕ) (s : SkipList K V) (i : ℕ) (h : Cell K V) (pre post : List (Cell K V))
        → length pre < f
        → i ≤ h.level
        → Links (forward_at s i) i (h ∷ (pre ++ post))
        → All (λ c. Held s c × Below c) pre
        → All (λ c. Held s c × NotBelow c) post
        → advance ord f s i key h.addr ≡ ok (last_at i h pre).addr
    advance-last_at zero s i h pre post lt p l b q = absurd (omega arith)
    advance-last_at (suc f) s i h [] post lt p l b q = advance-stop f s i h post (l.0 p) q
    advance-last_at (suc f) s i h (c ∷ cs) post lt p l b q = elim (Bool-cases (leb i c.level)) [
      | inl e ↦
          let t : last_at i h (c ∷ cs) ≡ last_at i c cs = rw (e) in
          let step = advance-step f s i h.addr c (l.0 p ∙ ap ok (rw (e))) b.0.0 b.0.1 in
          step
          ∙ advance-last_at f s i c cs post (omega arith) (leb→le i c.level e) l.1 b.1 q
          ∙ ap (λ (x : Cell K V). ok x.addr) (sym t)
      | inr e ↦
          let t : last_at i h (c ∷ cs) ≡ last_at i h cs = rw (e) in
          advance-last_at (suc f) s i h cs post (omega arith) p
            ((λ r. l.0 r ∙ ap ok (rw (e))), l.1.1) b.1 q
          ∙ ap (λ (x : Cell K V). ok x.addr) (sym t)
    ]

    -- The same from where the search has stopped at a level above.
    pub advance-down :
        (f : ℕ) (s : SkipList K V) (i j : ℕ) (h : Cell K V) (pre post : List (Cell K V))
        → length pre < f
        → i ≤ j
        → i ≤ h.level
        → Links (forward_at s i) i (h ∷ (pre ++ post))
        → All (λ c. Held s c × Below c) pre
        → All (λ c. Held s c × NotBelow c) post
        → advance ord f s i key (last_at j h pre).addr ≡ ok (last_at i h pre).addr
    unfolding Stopped
    advance-down f s i j h pre post lt ij p l b q = elim (Stopped-always j h pre) [
      | inl e ↦
          ap (λ (x : Cell K V). advance ord f s i key x.addr) e
          ∙ advance-last_at f s i h pre post lt p l b q
      | inr (c, xs, ys, e, jc, t) ↦
          let ic : i ≤ c.level = omega arith in
          let l' = subst (λ z. Links (forward_at s i) i (h ∷ (z ++ post))) e l in
          let l'' = subst (λ z. Links (forward_at s i) i z) (append_assoc xs (c ∷ ys) post) l'.1 in
          let b' = subst (All (λ c. Held s c × Below c)) e b in
          let n = length-append xs (c ∷ ys) in
          ap (λ (x : Cell K V). advance ord f s i key x.addr) t
          ∙ advance-last_at f s i c ys post (omega (arith, ap length e)) ic
              (Links-append_right (forward_at s i) i xs (c ∷ (ys ++ post)) l'')
              (All-append_right (λ c. Held s c × Below c) xs (c ∷ ys) b').1 q
          ∙ ap (λ (x : Cell K V). ok x.addr)
              (sym (ap (last_at i h) e ∙ last_at-behind i h c xs ys ic))
    ]

    -- The outer loop collects `update`.
    pub find_path-path :
        (f : ℕ) (s : SkipList K V) (i : ℕ) (a : ℕ) (h : Cell K V) (pre post : List (Cell K V))
        → length pre < f
        → i ≤ h.level
        → ((j : ℕ) → j ≤ i → Links (forward_at s j) j (h ∷ (pre ++ post)))
        → All (λ c. Held s c × Below c) pre
        → All (λ c. Held s c × NotBelow c) post
        → advance ord f s i key a ≡ ok (last_at i h pre).addr
        → find_path ord f s key i a ≡ ok (path h pre 0 (suc i))
    unfolding find_path
    find_path-path f s zero a h pre post lt p l b q e = rw (e)
    find_path-path f s (suc i) a h pre post lt p l b q e =
        let down =
          advance-down f s i (suc i) h pre post lt (omega arith) (omega arith) (l i (omega arith)) b
            q in
        let ih =
          find_path-path f s i (last_at (suc i) h pre).addr h pre post lt (omega arith)
            (λ j r. l j (omega arith)) b q down in
        let snoc = path-snoc h pre 0 (suc i) (suc i) (omega arith) in
        (rw (e, ih)) ∙ ap ok (sym snoc)
