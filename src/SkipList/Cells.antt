-- ===== src/SkipList/Cells.antt =====
-- The elements of the skip list of include/common/skipList.h, as a list, and the pointers that a
-- level of the skip list must have for it. `f` is a level's `forward` pointers by address.
use kvcache_raft.Common.{
  ℕ, ◌≤◌, ◌<◌, ◌≡◌, ◌≢◌, ◌⊎◌, inl, inr, refl, sym, ap, ◌∙◌, subst, List, [], ◌∷◌, ◌++◌, Option,
  none, some, leb, if◌then◌else◌, Outcome, ok, arith, All, Pairwise, Bool-cases, leb→le,
}

pub record Cell (K V : Type 0) : Type 0 where
  pub addr : ℕ
  pub level : ℕ
  pub key : K
  pub value : V

module _ {K V : Type 0} where
  -- The first cell that level `i` has.
  abbrev pub first_at : ℕ → List (Cell K V) → Option ℕ
  first_at i [] = none
  first_at i (c ∷ cs) = if leb i c.level then some c.addr else first_at i cs

  -- The last cell that level `i` has, of `h` and those behind it.
  abbrev pub last_at : ℕ → Cell K V → List (Cell K V) → Cell K V
  last_at i h [] = h
  last_at i h (c ∷ cs) = if leb i c.level then last_at i c cs else last_at i h cs

  -- Each cell of level `i` points to the next one.
  abbrev pub Links : (ℕ → Outcome (Option ℕ)) → ℕ → List (Cell K V) → Type 0
  Links f i [] = Unit
  Links f i (c ∷ cs) = (i ≤ c.level → f c.addr ≡ ok (first_at i cs)) × Links f i cs

  -- The address is not `a`.
  abbrev pub Elsewhere : ℕ → Cell K V → Type 0
  Elsewhere a c = c.addr ≢ a

  -- No two have the same address.
  abbrev pub Distinct : List (Cell K V) → Type 0
  Distinct cs = Pairwise (λ c d. Elsewhere c.addr d) cs

  -- The cells of level `i` are the same without those of lower levels.
  pub first_at-short :
      (i : ℕ) (c : Cell K V) (pre post : List (Cell K V))
      → c.level < i
      → first_at i (pre ++ c ∷ post) ≡ first_at i (pre ++ post)
  first_at-short i c [] post h = ground arith
  first_at-short i c (d ∷ ds) post h = ground (arith, first_at-short i c ds post h)

  pub first_at-none :
      (i : ℕ) (cs : List (Cell K V)) → All (λ c. c.level < i) cs → first_at i cs ≡ none
  first_at-none i [] h = refl
  first_at-none i (c ∷ cs) h = let p = h.0 in ground (arith, first_at-none i cs h.1)

  pub none-first_at :
      (i : ℕ) (cs : List (Cell K V)) → first_at i cs ≡ none → All (λ c. c.level < i) cs
  none-first_at i [] h = tt
  none-first_at i (c ∷ cs) h = elim (Bool-cases (leb i c.level)) [
    | inl p ↦ absurd (ground arith)
    | inr p ↦ (ground arith, none-first_at i cs (ground arith))
  ]

  -- What the first cell has, if there is one, is what all have.
  pub first_at-All :
      (P : Cell K V → Type 0) (i : ℕ) (cs : List (Cell K V))
      → All P cs
      → (first_at i cs ≡ none) ⊎ ((c : Cell K V) × (first_at i cs ≡ some c.addr) × P c)
  first_at-All P i [] h = inl refl
  first_at-All P i (c ∷ cs) h = elim (Bool-cases (leb i c.level)) [
    | inl p ↦ inr (c, rw (p), h.0)
    | inr p ↦
        subst (λ z. (z ≡ none) ⊎ ((c : Cell K V) × (z ≡ some c.addr) × P c)) (sym (rw (p)))
          (first_at-All P i cs h.1)
  ]

  pub last_at-All :
      (P : Cell K V → Type 0) (i : ℕ) (h : Cell K V) (cs : List (Cell K V))
      → P h
      → All P cs
      → P (last_at i h cs)
  last_at-All P i h [] p q = p
  last_at-All P i h (c ∷ cs) p q = elim (Bool-cases (leb i c.level)) [
    | inl e ↦ subst P (sym (rw (e))) (last_at-All P i c cs q.0 q.1)
    | inr e ↦ subst P (sym (rw (e))) (last_at-All P i h cs p q.1)
  ]

  -- The last cell of level `i` is high enough to have it.
  pub last_at-level :
      (i : ℕ) (h : Cell K V) (cs : List (Cell K V)) → i ≤ h.level → i ≤ (last_at i h cs).level
  last_at-level i h [] p = p
  last_at-level i h (c ∷ cs) p = elim (Bool-cases (leb i c.level)) [
    | inl e ↦ ground (arith, last_at-level i c cs (leb→le i c.level e))
    | inr e ↦ ground (arith, last_at-level i h cs p)
  ]

  pub last_at-short :
      (i : ℕ) (h : Cell K V) (cs : List (Cell K V)) → All (λ c. c.level < i) cs → last_at i h cs ≡ h
  last_at-short i h [] p = refl
  last_at-short i h (c ∷ cs) p = let q = p.0 in ground (arith, last_at-short i h cs p.1)

  -- Behind a cell of level `i`, what is before it does not matter.
  pub last_at-behind :
      (i : ℕ) (h c : Cell K V) (pre post : List (Cell K V))
      → i ≤ c.level
      → last_at i h (pre ++ c ∷ post) ≡ last_at i c post
  last_at-behind i h c [] post p = ground arith
  last_at-behind i h c (d ∷ ds) post p = elim (Bool-cases (leb i d.level)) [
    | inl e ↦ ground (arith, last_at-behind i d c ds post p)
    | inr e ↦ ground (arith, last_at-behind i h c ds post p)
  ]

  pub Links-append_right :
      (f : ℕ → Outcome (Option ℕ)) (i : ℕ) (xs ys : List (Cell K V))
      → Links f i (xs ++ ys)
      → Links f i ys
  Links-append_right f i [] ys l = l
  Links-append_right f i (x ∷ xs) ys l = Links-append_right f i xs ys l.1

  -- The last cell of level `i` points to what is behind.
  pub last_at-points :
      (f : ℕ → Outcome (Option ℕ)) (i : ℕ) (h : Cell K V) (pre post : List (Cell K V))
      → i ≤ h.level
      → Links f i (h ∷ (pre ++ post))
      → f (last_at i h pre).addr ≡ ok (first_at i post)
  last_at-points f i h [] post p l = l.0 p
  last_at-points f i h (c ∷ cs) post p l = elim (Bool-cases (leb i c.level)) [
    | inl e ↦ let ih = last_at-points f i c cs post (leb→le i c.level e) l.1 in rw (e, ih)
    | inr e ↦
        let ih = last_at-points f i h cs post p ((λ q. l.0 q ∙ ap ok (rw (e))), l.1.1) in rw (e, ih)
  ]

  -- Of the addresses that the cells have, only those matter.
  pub Links-ext :
      (f g : ℕ → Outcome (Option ℕ)) (i : ℕ) (cs : List (Cell K V))
      → All (λ c. g c.addr ≡ f c.addr) cs
      → Links f i cs
      → Links g i cs
  Links-ext f g i [] same l = tt
  Links-ext f g i (c ∷ cs) same l = ((λ p. same.0 ∙ l.0 p), Links-ext f g i cs same.1 l.1)
